-- ===== src/Finalization/Partition.antt =====
-- No finalizer is lost or run twice.
use vmkit_core.Prelude.{
  ℕ, ◌+◌, ◌≡◌, ◌≢◌, ◌∙◌, refl, ap, sym, true, false, List, [], ◌∷◌, ◌++◌, arith, length, ◌==◌,
}
use vmkit_core.Finalization.{
  Finalizer, finalized, unordered, drop, Call, Tracer, run, process, run_finalizers,
}

-- How often a callback is registered or pending.
abbrev pub occurrences : ℕ → List Finalizer → ℕ
occurrences c [] = 0
occurrences c (f ∷ fs) = elim f.finalizer [
  | finalized ↦ occurrences c fs
  | unordered d ↦ (elim (c == d) [ true ↦ 1 | false ↦ 0 ]) + occurrences c fs
  | drop d ↦ (elim (c == d) [ true ↦ 1 | false ↦ 0 ]) + occurrences c fs
]

-- No finalizer belongs to the null object.
abbrev pub NoneNull : List Finalizer → Type 0
NoneNull [] = Unit {0}
NoneNull (f ∷ fs) = (f.object ≢ 0) × NoneNull fs

-- Whatever the collector finds reachable, and however tracing changes that: if no registered
-- finalizer belongs to the null object, then each callback is, after `process`, among the
-- registered and the pending finalizers together as often as before; `closure_required` is false
-- only if nothing became pending.
pub process-occurrences :
    (after : ℕ → Tracer → Tracer) (tracer : Tracer) (registered pending : List Finalizer) (c : ℕ)
    → NoneNull registered
    → let r = process after tracer registered pending in
      (occurrences c r.0 + occurrences c r.1 ≡ occurrences c registered + occurrences c pending)
      × (r.2 ≡ false → r.1 ≡ pending)
unfolding process
process-occurrences after tracer [] pending c h = ground arith
process-occurrences after tracer (f ∷ fs) pending c h = ground (
  arith,
  process-occurrences after tracer fs pending c,
  process-occurrences after (after f.object tracer) fs
      (record f { object = tracer.trace_object f.object } ∷ pending) c,
)

run_finalizers-length : (fs : List Finalizer) → (run_finalizers fs).1 ≡ length fs
unfolding run_finalizers
run_finalizers-length [] = refl
run_finalizers-length (f ∷ fs) = omega (arith, run_finalizers-length fs)

append_assoc : (xs ys zs : List Call) → (xs ++ ys) ++ zs ≡ xs ++ (ys ++ zs)
append_assoc [] ys zs = refl
append_assoc (x ∷ xs) ys zs = ap (λ (cs : List Call). x ∷ cs) (append_assoc xs ys zs)

-- `run_finalizers` runs each pending finalizer once, the last one that became pending first, and
-- counts them.
pub run_finalizers-append :
    (late early : List Finalizer)
    → ((run_finalizers (late ++ early)).0 ≡ (run_finalizers late).0 ++ (run_finalizers early).0)
      × ((run_finalizers (late ++ early)).1 ≡ length late + length early)
unfolding run_finalizers
run_finalizers-append [] early = (refl, omega (arith, run_finalizers-length early))
run_finalizers-append (f ∷ late) early =
    let r = run_finalizers-append late early in
    (ap (λ (cs : List Call). run f ++ cs) r.0 ∙ sym (append_assoc (run f) _ _), omega (arith, r.1))
