-- ===== src/Bdwgc/Threads.antt =====
-- The threads of clients in vmkit/src/bdwgc_shim.rs: registration by hand.
use vmkit_core.Prelude.{
  ℕ, ◌≡◌, inl, inr, Bool-cases, true, Bool, ◌==◌, Option, some, ◌>>=◌, arith, Option-cases,
}
use vmkit_core.Thread.{Thread, for_mutator, new_unchecked}
use vmkit_core.Manager.{System, put, is_candidate}
use vmkit_core.Manager.Slots.{IsWellFormed, IsNew}
use vmkit_core.Manager.Lifecycle.{
  Plan, Os, Process, set_thread, register_mutator_manual, unregister_mutator_manual,
}
use vmkit_core.Manager.Lifecycle.Main.{register_mutator_manual-HasBegun}
use vmkit_core.Manager.Lifecycle.Ended.{IsRunning, HasEnded, terminate-HasEnded}

-- The thread that is made is `t`, with the number `id`.
unfoldable pub gc_register_my_thread : Plan → Os → (t id : ℕ) → Process → Option Process
unfolding for_mutator register_mutator_manual
gc_register_my_thread plan os t id p = do
  u ← for_mutator plan.collectors_spawned id
  register_mutator_manual plan os t (set_thread p t u)

pub gc_unregister_my_thread : Process → Option Process
unfolding unregister_mutator_manual
gc_unregister_my_thread p = unregister_mutator_manual p

fresh-IsWellFormed :
    (sys : System) (t : ℕ) (u : Thread)
    → IsNew sys t
    → IsWellFormed sys
    → IsWellFormed (record sys { store = put sys.store t u })
fresh-IsWellFormed sys t u n w = record {
  slots = λ i x h. elim (Bool-cases (x == t)) [
    | inr b ↦ ground (arith, b, w.slots i x h)
    | inl b ↦ let q : x ≡ t = ground (arith, b) in absurd (ground (arith, q, n i, h))
  ];
  empty = w.empty;
  once = w.once;
}

for_mutator-is_candidate :
    (spawned : Bool) (id : ℕ) (u : Thread) → for_mutator spawned id ≡ some u → is_candidate u ≡ true
unfolding for_mutator new_unchecked is_candidate
for_mutator-is_candidate spawned id u e = ground (arith, e)

-- A client that registers its native thread and unregisters it again gets through, if the
-- registration does not panic: the thread that was made for it stands at the end of the list of those
-- about to terminate and no longer counts as an active mutator, its mutator is destroyed, and the
-- native thread has no current thread any more. The slots are well-formed and do not hold the thread.
pub gc_unregister_my_thread-gc_register_my_thread :
    (plan : Plan) (os : Os) (t id : ℕ) (p q : Process)
    → IsWellFormed p.system
    → IsNew p.system t
    → gc_register_my_thread plan os t id p ≡ some q
    → (ended : Process) × (gc_unregister_my_thread q ≡ some ended) × HasEnded t q ended
unfolding gc_register_my_thread gc_unregister_my_thread
gc_unregister_my_thread-gc_register_my_thread plan os t id p q w n e =
    elim (Option-cases (for_mutator plan.collectors_spawned id)) [
      | inl o ↦ absurd (ground (arith, e, o))
      | inr (u, o) ↦
          let b =
            register_mutator_manual-HasBegun plan os t (set_thread p t u) q
              (fresh-IsWellFormed p.system t u n w) n (ground (arith, e, o)) in
          let (_, _, i, at, known) = b.slot in
          let running : IsRunning t q = record {
            current = b.current.0;
            mutator =
                ground (arith, b.mutator, for_mutator-is_candidate plan.collectors_spawned id u o);
            slot = rw known at;
          } in
          let (ended, d, h) = terminate-HasEnded t q running in
          (ended, ground (arith, b.current.0, d), h)
    ]
