-- ===== src/Tracing.antt =====
-- vmkit/src/mm/traits.rs and the pointers of vmkit/src/mm/conservative_roots.rs: how references,
-- internal and narrow pointers are traced. The tracer of mmtk, over a state of any type, and its
-- search for objects are the record `Tracer`; `none` is a panic.
pub mod Pointers
pub mod Values
use vmkit_core.Prelude.{ℕ, ◌+◌, Bool, if◌then◌else◌, ◌==◌, List, [], ◌∷◌, Option, none, some, ◌>>=◌}
use vmkit_core.Prelude.Words.{wrap, wrapping_sub}
use vmkit_core.Compression.{CompressedOps, decode, encode}

-- `find s address limit` is the search for the object that an internal pointer points into, and
-- `need_vo_bits` is NEED_VO_BITS_DURING_TRACING.
pub record Tracer (S : Type 0) : Type 0 where
  pub trace_object : ℕ → S → ℕ × S
  pub find : S → ℕ → ℕ → Option ℕ
  pub need_vo_bits : Bool
  pub ops : CompressedOps

pub record FatInternalPointer : Type 0 where
  pub offset : ℕ
  pub object : ℕ

module _ {S : Type 0} (tracer : Tracer S) where
  -- `Trace for VMKitObject`: the reference afterwards.
  pub trace_reference : ℕ → S → ℕ × S
  trace_reference object s = if object == 0 then (object, s) else tracer.trace_object object s

  -- `InternalPointer::object` and `InternalPointer::offset`.
  pub internal_object : S → ℕ → Option ℕ
  internal_object s pointer = tracer.find s pointer 128

  pub internal_offset : S → ℕ → Option ℕ
  unfolding internal_object
  internal_offset s pointer = do
    object ← internal_object s pointer
    some (wrapping_sub pointer object)

  -- `Trace for InternalPointer`, with the feature `cooperative`.
  pub trace_internal_pointer : ℕ → S → Option (ℕ × S)
  trace_internal_pointer pointer s =
      if tracer.need_vo_bits
      then some (elim (tracer.find s pointer 128) [
        | none ↦ (pointer, s)
        | some start ↦
            let offset = wrapping_sub pointer start in
            let (new_object, s') = tracer.trace_object start s in (wrap (new_object + offset), s')
      ])
      else none

  -- `Trace for FatInternalPointer` traces a copy of the reference, so that the pointer stays.
  unfoldable pub trace_fat_internal_pointer : FatInternalPointer → S → FatInternalPointer × S
  unfolding trace_reference
  trace_fat_internal_pointer pointer s = (pointer, (trace_reference pointer.object s).1)

  -- `Trace for VMKitNarrow`.
  pub trace_narrow : ℕ → S → ℕ × S
  unfolding trace_reference
  trace_narrow narrow s =
      let (object, s') = trace_reference (decode tracer.ops narrow) s in
      (encode tracer.ops object, s')

  -- `Trace for Option<T>`, and for vectors, arrays and slices, which trace one element after the
  -- other.
  unfoldable pub trace_option {ℓ} : {A : Type ℓ} → (A → S → A × S) → Option A → S → Option A × S
  trace_option trace none s = (none, s)
  trace_option trace (some x) s = let (y, s') = trace x s in (some y, s')

  unfoldable pub trace_each {ℓ} : {A : Type ℓ} → (A → S → A × S) → List A → S → List A × S
  trace_each trace [] s = ([], s)
  trace_each trace (x ∷ xs) s =
      let (y, s') = trace x s in let (ys, s'') = trace_each trace xs s' in (y ∷ ys, s'')
