-- ===== src/Finalization/Tests.antt =====
-- Two registered finalizers, of which one belongs to a dead object.
use vmkit_core.Prelude.{◌+◌, ◌≡◌, false, [], ◌∷◌, ◌++◌, none, arith, ltb, length}
use vmkit_core.Finalization.{Finalizer, unordered, drop, Tracer, process, run_finalizers}
use vmkit_core.Finalization.Partition.{occurrences, process-occurrences, run_finalizers-append}

abbrev tracer : Tracer
tracer = record {
  is_reachable = λ o. ltb 64 o;
  get_forwarded_object = λ o. none;
  trace_object = λ o. o + 256;
}

abbrev alive : Finalizer
alive = record { object = 128; finalizer = unordered 1 }

abbrev dead : Finalizer
dead = record { object = 64; finalizer = drop 2 }

process-occurrences_example :
    let r = process (λ o t. t) tracer (dead ∷ alive ∷ []) [] in
    (occurrences 2 r.0 + occurrences 2 r.1 ≡ occurrences 2 (dead ∷ alive ∷ []) + occurrences 2 [])
    × (r.2 ≡ false → r.1 ≡ [])
process-occurrences_example =
    process-occurrences (λ o t. t) tracer (dead ∷ alive ∷ []) [] 2
      (ground arith, (ground arith, tt))

run_finalizers-append_example :
    ((run_finalizers ((alive ∷ []) ++ (dead ∷ []))).0
      ≡ (run_finalizers (alive ∷ [])).0 ++ (run_finalizers (dead ∷ [])).0)
    × ((run_finalizers ((alive ∷ []) ++ (dead ∷ []))).1
        ≡ length {A = Finalizer} (alive ∷ []) + length {A = Finalizer} (dead ∷ []))
run_finalizers-append_example = run_finalizers-append (alive ∷ []) (dead ∷ [])
