-- ===== src/Manager/Lifecycle/Main.antt =====
-- The main thread, and a thread that is registered by hand.
use vmkit_core.Prelude.{
  ℕ, ◌≡◌, refl, sym, ◌∙◌, ap, inl, inr, Bool, false, [], ◌∷◌, none, some, arith, Option-cases,
}
use vmkit_core.Thread.{Thread, ThreadState, set_exec_status, new_unchecked, for_mutator}
use vmkit_core.Thread.Parked.{parked_scope}
use vmkit_core.Manager.{
  System, Passage, put, new_manager, add_thread, process_about_to_terminate, process_loop, register,
  try_block, add_main_thread, next_index,
}
use vmkit_core.Manager.Slots.{IsWellFormed, IsNew}
use vmkit_core.Manager.Lifecycle.{
  Plan, Os, Process, set_native, set_thread, attach, enrol, bind_mutator, configure,
  set_stack_bounds, set_tid, init_current_thread, set_handle, prepare_main, register_mutator_manual,
}
use vmkit_core.Manager.Lifecycle.Attached.{KeepsNew, HasBegun, bind_mutator-Binds, enrol-HasBegun}

-- A second registration of the only thread.
add_thread-again :
    (p : Passage) (sys sys' : System) (t : ℕ)
    → sys.manager ≡ record new_manager { threads = some t ∷ [] }
    → add_thread p t sys t ≡ some sys'
    → sys'.manager.threads ≡ some t ∷ some t ∷ []
unfolding add_thread process_about_to_terminate process_loop register next_index
add_thread-again p sys sys' t m e =
    elim (Option-cases
      (parked_scope p.adapters p.sp p.waits p.meanwhile ((register sys t).store t))) [
        | inl k ↦ absurd (ground (arith, e, m, k))
        | inr (v, k) ↦ ground (arith, e, m, k)
      ]

attach-again :
    (plan : Plan) (os : Os) (t : ℕ) (q q' : Process)
    → q.system.manager ≡ record new_manager { threads = some t ∷ [] }
    → (q.natives t).stack_bounds ≡ none
    → attach plan os t q ≡ some q'
    → q'.system.manager.threads ≡ some t ∷ some t ∷ []
unfolding attach enrol configure set_stack_bounds set_tid init_current_thread set_handle
attach-again plan os t q q' only unset e =
    let q1 = init_current_thread t (set_tid os t q) in
    let bounded = record (q1.natives t) { stack_bounds = some os.stack_bounds } in
    let q2 = configure plan t (set_native q1 t bounded) in
    let b = bind_mutator-Binds t q2 in
    let r = bind_mutator t q2 in
    let k : r.current_thread ≡ some t = b.current.0 in
    elim (Option-cases (add_thread os.passage t r.system t)) [
      | inl o ↦ absurd (ground (arith, e, unset, k, o))
      | inr (sys, o) ↦
          let a = add_thread-again os.passage r.system sys t (b.threads ∙ only) o in
          let x : set_handle os t (record r { system = sys }) ≡ q' =
            ground (arith, e, unset, k, o) in
          ap (λ (y : Process). y.system.manager.threads) (sym x) ∙ a
    ]

-- `main` registers its thread twice: `add_main_thread` gives it the first slot, and `startoff` then
-- adds it again, so that when the closure of `main` begins, if it does, both slots hold it. This
-- holds in a process without threads, for a thread whose stack bounds are not set, if the
-- initialization of the collectors changes neither the slots nor what is known of this thread.
pub main-twice :
    (plan : Plan) (os : Os) (init : Process → Process) (t : ℕ) (p : Process)
    → p.system.manager ≡ new_manager
    → (p.natives t).stack_bounds ≡ none
    → ((q : Process) → (init q).system.manager ≡ q.system.manager)
    → ((q : Process) → (init q).natives t ≡ q.natives t)
    → (q : Process) × (prepare_main init t p ≡ some q)
      × ((q' : Process)
          → attach plan os t q ≡ some q'
          → q'.system.manager.threads ≡ some t ∷ some t ∷ [])
unfolding prepare_main add_main_thread
main-twice plan os init t p e h km kn =
    let p1 = init_current_thread t p in
    let p2 = set_thread p1 t (set_exec_status (p1.system.store t) ThreadState.in_managed) in
    let s1 : System = record {
      manager = record p.system.manager { threads = some t ∷ [] };
      store = put p2.system.store t (record (p2.system.store t) { index_in_manager = 0 });
    } in
    let q = init (record p2 { system = s1 }) in
    let only : q.system.manager ≡ record new_manager { threads = some t ∷ [] } =
      ground (arith, e, km (record p2 { system = s1 })) in
    let unset : (q.natives t).stack_bounds ≡ none =
      ap (λ n. n.stack_bounds) (kn (record p2 { system = s1 })) ∙ h in
    (q, ground (arith, e), λ q' a. attach-again plan os t q q' only unset a)

made-new :
    (u : Thread) (spawned : Bool) (id : ℕ)
    → for_mutator spawned id ≡ some u
    → (u.exec_status ≡ ThreadState.new) × (u.is_blocked_for_gc ≡ false)
unfolding for_mutator new_unchecked
made-new u spawned id e = ground (arith, e)

try_block-new :
    (s : ℕ → Thread) (t : ℕ)
    → (s t).exec_status ≡ ThreadState.new
    → (s t).is_blocked_for_gc ≡ false
    → ((try_block s t).1 ≡ false) × (((try_block s t).0 t).is_blocked_for_gc ≡ false)
unfolding try_block
try_block-new s t new unblocked = ground (arith, new, unblocked)

-- Registration by hand is the beginning of a thread, like `startoff`.
pub register_mutator_manual-HasBegun :
    (plan : Plan) (os : Os) (t : ℕ) (p q : Process)
    → IsWellFormed p.system
    → IsNew p.system t
    → register_mutator_manual plan os t p ≡ some q
    → HasBegun plan os.passage t p q
unfolding register_mutator_manual configure set_stack_bounds set_tid init_current_thread
register_mutator_manual-HasBegun plan os t p q w n e =
    elim (Option-cases (p.natives t).stack_bounds) [
      | inr (x, h) ↦ absurd (ground (arith, e, h))
      | inl h ↦
          let p1 = configure plan t (init_current_thread t (set_tid os t p)) in
          let bounded = record (p1.natives t) { stack_bounds = some os.stack_bounds } in
          let r =
            enrol-HasBegun plan os t (set_native p1 t bounded) q w n (refl, refl) (ground arith)
              (ground (arith, e, h)) in
          record {
            slot = r.slot;
            status = r.status;
            fresh = r.fresh;
            current = r.current;
            fast = r.fast;
            mutator = ground (arith, r.mutator);
          }
    ]

-- A thread that is registered by hand keeps the status `New`, in which it was made, while it runs:
-- the loop that blocks all mutators for a collection does not block it and does not wait for it.
-- It is made by `for_mutator`, the slots are well-formed and do not hold it, and no other thread
-- starts or blocks it meanwhile.
pub register_mutator_manual-not_blocked :
    (plan : Plan) (os : Os) (t : ℕ) (p q : Process) (spawned : Bool) (id : ℕ)
    → IsWellFormed p.system
    → IsNew p.system t
    → KeepsNew os.passage.meanwhile
    → for_mutator spawned id ≡ some (p.system.store t)
    → register_mutator_manual plan os t p ≡ some q
    → ((q.system.store t).exec_status ≡ ThreadState.new)
      × ((try_block q.system.store t).1 ≡ false)
      × (((try_block q.system.store t).0 t).is_blocked_for_gc ≡ false)
register_mutator_manual-not_blocked plan os t p q spawned id w n keep made e =
    let b = register_mutator_manual-HasBegun plan os t p q w n e in
    let (new, unblocked) = made-new _ spawned id made in
    let (s, k) = b.fresh new keep in
    let (dropped, runs) = try_block-new q.system.store t s (k ∙ unblocked) in (s, dropped, runs)
