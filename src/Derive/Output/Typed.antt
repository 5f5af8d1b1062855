-- ===== src/Derive/Output/Typed.antt =====
-- The types of the emitted callbacks: each calls a method that the macro implements.
use vmkit_core.Prelude.{
  ◌≡◌, refl, subst, Bool, true, false, if◌then◌else◌, List, Option, none, some, ◌>>=◌,
}
use vmkit_core.Derive.{Syn, ArrayLike, ObjectTrace, GcMetadata, Field, Structure}
use vmkit_core.Derive.Outcome.{ok}
use vmkit_core.Derive.Output.Emitted.{derive_gcmetadata-emit}
use vmkit_core.Derive.Output.{
  Filter, Output, TraceImpl, Callback, Elements, InstanceSize, Alignment, ComputeSize, extra,
  trace_code, emit, derive_gcmetadata,
}

-- A callback is typed against the `impl` that is emitted beside it: a method of `Scan` or of `Trace`
-- may be called only if this trait is implemented, and an expression needs no `impl`.
pub data IsTyped {syn : Syn} : Option (TraceImpl syn) → Callback syn → Type 0 where
  nothing : IsTyped none Callback.no_callback
  scans : {i : TraceImpl syn} → i.scan ≡ true → IsTyped (some i) Callback.call_scan
  traces : {i : TraceImpl syn} → i.scan ≡ false → IsTyped (some i) Callback.call_trace
  slots : (e : syn.Expr) → IsTyped none (Callback.scan_slots e)
  objects : (e : syn.Expr) → IsTyped none (Callback.trace_object e)

-- What holds of the value of an option, if it has one.
abbrev Holds {ℓ} : {A : Type ℓ} → (A → Type 0) → Option A → Type 0
Holds P none = Unit {0}
Holds P (some x) = P x

module _ {syn : Syn} where
  abbrev CodeTyped : Option (TraceImpl syn) × Callback syn → Type 0
  CodeTyped c = IsTyped c.0 c.1

  abbrev OutputTyped : Output syn → Type 0
  OutputTyped o = IsTyped o.trace_impl o.trace

  auto_code :
      (scan : Bool) (o : Option (Option (Elements syn))) (arms : List (List Field))
      → Holds CodeTyped (
          o >>= λ elements. some (
            some (record { scan = scan; elements = elements; arms = arms }),
            if scan then Callback.call_scan else Callback.call_trace,
          ))
  auto_code scan none arms = tt
  auto_code true (some x) arms = scans refl
  auto_code false (some x) arms = traces refl

  module _ (filter : Filter) (variants : List (List Field)) where
    trace_code-CodeTyped :
        (array : Option (ArrayLike syn)) (t : ObjectTrace syn)
        → Holds CodeTyped (trace_code syn filter variants array t)
    unfolding trace_code
    trace_code-CodeTyped array ObjectTrace.no_trace = nothing
    trace_code-CodeTyped array (ObjectTrace.auto scan) = auto_code scan (extra syn array) _
    trace_code-CodeTyped array (ObjectTrace.trace true e) = slots e
    trace_code-CodeTyped array (ObjectTrace.trace false e) = objects e

    assembled :
        (c : Option (Option (TraceImpl syn) × Callback syn)) (n : Option (ComputeSize syn))
        (is : InstanceSize syn) (al : Alignment syn)
        → Holds CodeTyped c
        → Holds OutputTyped (
            c >>= λ (trace_impl, callback). n >>= λ compute. some (record {
              trace = callback;
              instance_size = is;
              compute_size = compute;
              alignment = al;
              trace_impl = trace_impl;
            }))
    assembled none n is al h = tt
    assembled (some c) none is al h = tt
    assembled (some c) (some x) is al h = h

    emit-IsTyped :
        (array : Option (ArrayLike syn)) (gc : GcMetadata syn)
        → Holds OutputTyped (emit syn filter variants array gc)
    unfolding emit
    emit-IsTyped array gc =
        assembled (trace_code syn filter variants array gc.trace) _ _ _
          (trace_code-CodeTyped array gc.trace)

  -- The code that the macro emits is well typed in its callback: the callback calls the method of
  -- `Scan` or of `Trace` only if the macro emits the `impl` of the same trait beside it, and it emits
  -- no `impl` for a callback that is an expression or is missing.
  pub derive_gcmetadata-IsTyped :
      (filter : Filter) (s : Structure syn) (o : Output syn)
      → derive_gcmetadata syn filter s ≡ some (ok o)
      → IsTyped o.trace_impl o.trace
  derive_gcmetadata-IsTyped filter s o e =
      let (gc, array, _, _, p) = derive_gcmetadata-emit filter s o e in
      subst (Holds OutputTyped) p (emit-IsTyped filter s.variants array gc)
