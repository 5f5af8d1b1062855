-- ===== src/Collection/Tests.antt =====
-- Two nested regions, of which the outer one is still open.
use vmkit_core.Prelude.{◌≡◌, true, false, [], ◌∷◌, arith}
use vmkit_core.Heap.{is_gc_enabled}
use vmkit_core.Heap.Disabling.{disable, enable, run}
use vmkit_core.Collection.{is_collection_enabled}
use vmkit_core.Collection.Disabled.{is_collection_enabled-run}

is_collection_enabled-run_example :
    (is_gc_enabled (run (disable ∷ disable ∷ enable ∷ []) 0) ≡ false)
    × (is_collection_enabled (run (disable ∷ disable ∷ enable ∷ []) 0) ≡ true)
is_collection_enabled-run_example =
    is_collection_enabled-run (disable ∷ disable ∷ enable ∷ []) 0 (omega arith, omega arith)
      (omega arith) (omega arith)
