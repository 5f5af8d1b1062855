-- ===== src/Bdwgc/Startup/Once.antt =====
-- The collector is started once.
use vmkit_core.Prelude.{
  ℕ, ◌≡◌, inl, inr, true, false, ◌==◌, some, arith, Option-cases, if◌then◌else◌,
}
use vmkit_core.Manager.Lifecycle.{Plan, Os}
use vmkit_core.Bdwgc.Threads.{gc_register_my_thread}
use vmkit_core.Bdwgc.Startup.{
  Shim, fixed_heap_size, new_bdwgc, initialize, gc_init, gc_is_init_called,
}

-- Where `GC_init` gets through in a process that has no collector yet: the collector is marked as
-- started, the calling thread is
-- registered, mmtk's collection is initialised, and no kind and no mark
-- procedure is registered; the size of the heap is fixed if the client asked for the entire heap, and the other
-- options stay as they were; and any further call, by any thread, changes nothing.
pub gc_init-once :
    (plan : Plan) (os : Os) (half t id : ℕ) (s s' : Shim)
    → s.init_done ≡ false
    → gc_init plan os half t id s ≡ some s'
    → (gc_is_init_called s ≡ 0)
      × (gc_is_init_called s' ≡ 1)
      × (s'.collection_initialized ≡ true)
      × (gc_register_my_thread plan os t id s.process ≡ some s'.process)
      × (s'.bdwgc_vm ≡ some new_bdwgc)
      × (s'.builder.plan ≡ s.builder.plan)
      × (s'.builder.threads ≡ s.builder.threads)
      × (s'.builder.gc_trigger
          ≡ (if s.gc_use_entire_heap == 0 then s.builder.gc_trigger else fixed_heap_size half))
      × ((plan' : Plan) (os' : Os) (half' t' id' : ℕ) → gc_init plan' os' half' t' id' s' ≡ some s')
unfolding gc_init gc_is_init_called initialize
gc_init-once plan os half t id s s' new e = elim (Option-cases s.bdwgc_vm) [
  | inr (vm, v) ↦ absurd (ground (arith, new, v, e))
  | inl v ↦ elim (Option-cases (gc_register_my_thread plan os t id s.process)) [
    | inl r ↦ absurd (ground (arith, new, v, r, e))
    | inr (p, r) ↦ (
      ground (arith, new),
      ground (arith, new, v, r, e),
      ground (arith, new, v, r, e),
      ground (arith, new, v, r, e),
      ground (arith, new, v, r, e),
      ground (arith, new, v, r, e),
      ground (arith, new, v, r, e),
      ground (arith, new, v, r, e),
      λ plan' os' half' t' id'. ground (arith, new, v, r, e),
    )
  ]
]
