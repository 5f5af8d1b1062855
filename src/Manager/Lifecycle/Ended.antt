-- ===== src/Manager/Lifecycle/Ended.antt =====
-- The end of a thread, and the threads that do not come to it.
use vmkit_core.Prelude.{
  ℕ, ◌≡◌, refl, ◌⊎◌, inl, inr, Bool, true, false, [], ◌∷◌, ◌++◌, none, some, arith, get_elem?,
  Option-cases,
}
use vmkit_core.Thread.{Thread, new_unchecked, for_collector}
use vmkit_core.Manager.{System, put, add_about_to_terminate, is_candidate}
use vmkit_core.Manager.Slots.{IsWellFormed, IsNew}
use vmkit_core.Manager.Lifecycle.{
  Plan, Os, Process, Body, set_thread, set_native, attach, terminate, startoff, for_concurrent,
  deinit_current_thread,
}
use vmkit_core.Manager.Lifecycle.Attached.{attach-HasBegun}

-- The thread runs in its own native thread, in its slot and with a mutator.
pub record IsRunning (t : ℕ) (p : Process) : Type 0 where
  pub current : p.current_thread ≡ some t
  pub mutator : (p.natives t).mutator ≡ true
  pub slot : get_elem? p.system.manager.threads (p.system.store t).index_in_manager ≡ some (some t)

-- The thread was put among the threads about to terminate, in a process that was `p`.
pub record HasEnded (t : ℕ) (p q : Process) : Type 0 where
  pub listed : q.system.manager.about_to_terminate ≡ p.system.manager.about_to_terminate ++ t ∷ []
  pub threads : q.system.manager.threads ≡ p.system.manager.threads
  pub flags :
      ((q.system.store t).is_joinable ≡ true)
      × ((q.system.store t).is_about_to_terminate ≡ true)
      × ((q.system.store t).active_mutator_context ≡ false)
  pub mutator : (q.natives t).mutator ≡ false
  pub current : (q.current_thread ≡ none) × (q.registered ≡ false)

-- The thread puts itself at the end of the list.
add_about_to_terminate-listed :
    (sys : System) (t : ℕ)
    → get_elem? sys.manager.threads (sys.store t).index_in_manager ≡ some (some t)
    → (sys' : System) × (add_about_to_terminate sys t ≡ some sys')
      × (sys'.manager.about_to_terminate ≡ sys.manager.about_to_terminate ++ t ∷ [])
      × (sys'.manager.threads ≡ sys.manager.threads)
      × ((sys'.store t).is_joinable ≡ (sys.store t).is_joinable)
      × ((sys'.store t).is_about_to_terminate ≡ true)
      × ((sys'.store t).active_mutator_context ≡ false)
unfolding add_about_to_terminate
add_about_to_terminate-listed sys t h = (
  record {
    manager = record sys.manager { about_to_terminate = sys.manager.about_to_terminate ++ t ∷ [] };
    store =
        put sys.store t
          (record (sys.store t) { is_about_to_terminate = true; active_mutator_context = false });
  },
  ground (arith, h),
  refl,
  refl,
  ground arith,
  ground arith,
  ground arith,
)

pub terminate-HasEnded :
    (t : ℕ) (p : Process)
    → IsRunning t p
    → (q : Process) × (terminate t p ≡ some q) × HasEnded t p q
unfolding terminate deinit_current_thread
terminate-HasEnded t p r =
    let p1 = set_thread p t (record (p.system.store t) { is_joinable = true }) in
    let (sys, e, listed, threads, joinable, dying, inactive) =
      add_about_to_terminate-listed p1.system t (ground (arith, r.slot)) in
    (
      deinit_current_thread
          (set_native (record p { system = sys }) t (record (p.natives t) { mutator = false })),
      ground (arith, r.current, r.mutator, e),
      record {
        listed = listed;
        threads = threads;
        flags = (ground (arith, joinable), dying, inactive);
        mutator = ground arith;
        current = (refl, refl);
      },
    )

-- A thread whose closure leaves it running ends: once it has begun and its closure is done,
-- `startoff` returns what the closure gave, also when this is a panic, and the thread stands at the
-- end of the list of those about to terminate, in its slot, joinable, no longer an active mutator,
-- with its mutator destroyed; the native thread has no current thread any more.
pub startoff-HasEnded :
    (plan : Plan) (os : Os) (f : Body) (t : ℕ) (p q : Process)
    → attach plan os t p ≡ some q
    → IsRunning t (f q).1
    → (ended : Process) × (startoff plan os f t p ≡ some ((f q).0, ended))
      × HasEnded t (f q).1 ended
unfolding startoff
startoff-HasEnded plan os f t p q e r =
    let (ended, d, h) = terminate-HasEnded t (f q).1 r in (ended, ground (arith, e, d), h)

-- The threads that `for_concurrent` and `for_collector` make.
abbrev pub IsServant : Thread → Type 0
IsServant u =
    (spawned : Bool) × (id : ℕ) × ((for_concurrent spawned id ≡ some u)
      ⊎ (for_collector spawned id ≡ some u))

IsServant-is_candidate : (u : Thread) → IsServant u → is_candidate u ≡ false
unfolding is_candidate for_concurrent for_collector new_unchecked
IsServant-is_candidate u (spawned, id, inl e) = ground (arith, e)
IsServant-is_candidate u (spawned, id, inr e) = ground (arith, e)

-- A concurrent thread or a collector thread that begins without a mutator and whose closure binds
-- none does not come to its end: `terminate` uses a mutator that was never written. This holds for
-- well-formed slots of which none holds the thread.
pub startoff-never_bound :
    (plan : Plan) (os : Os) (f : Body) (t : ℕ) (p : Process)
    → IsWellFormed p.system
    → IsNew p.system t
    → IsServant (p.system.store t)
    → (p.natives t).mutator ≡ false
    → ((q : Process) → ((f q).1.natives t).mutator ≡ (q.natives t).mutator)
    → startoff plan os f t p ≡ none
unfolding startoff terminate
startoff-never_bound plan os f t p w n c m k = elim (Option-cases (attach plan os t p)) [
  | inl o ↦ ground (arith, o)
  | inr (q, o) ↦
      let b = attach-HasBegun plan os t p q w n o in
      let unbound : ((f q).1.natives t).mutator ≡ false =
        ground (arith, k q, b.mutator, m, IsServant-is_candidate (p.system.store t) c) in
      elim (Option-cases (f q).1.current_thread) [
        | inl g ↦ ground (arith, o, unbound, g)
        | inr (x, g) ↦ ground (arith, o, unbound, g)
      ]
]
