-- ===== src/Manager/Lifecycle/Attached.antt =====
-- A thread that has begun: `startoff` up to its closure.
use vmkit_core.Prelude.{
  ℕ, ◌≡◌, ◌≢◌, refl, sym, ◌∙◌, ap, subst, inl, inr, true, List, ◌||◌, some, arith, length,
  get_elem?, Bool-cases, Option-cases,
}
use vmkit_core.Thread.{Thread, new, in_managed, in_native, enable_yieldpoints}
use vmkit_core.Thread.Adapters.{BlockAdapter, gc_adapters}
use vmkit_core.Thread.Parked.{parked_scope, parked_scope-in_managed}
use vmkit_core.Manager.{
  System, Passage, put, register, add_thread, process_about_to_terminate, is_candidate,
}
use vmkit_core.Manager.Slots.{IsWellFormed, IsNew, put-IsWellFormed}
use vmkit_core.Manager.Process.{
  Registered, add_thread-IsWellFormed, process_about_to_terminate-Keeps,
}
use vmkit_core.Manager.Lifecycle.{
  Plan, Os, Process, set_native, attach, enrol, bind_mutator, configure, set_tid, set_stack_bounds,
  set_handle, init_current_thread, fast_path,
}

enable_yieldpoints-same :
    (u : Thread)
    → ((enable_yieldpoints u).index_in_manager ≡ u.index_in_manager)
      × ((enable_yieldpoints u).exec_status ≡ u.exec_status)
      × ((enable_yieldpoints u).is_blocked_for_gc ≡ u.is_blocked_for_gc)
unfolding enable_yieldpoints
enable_yieldpoints-same u = ground arith

-- The thread that adds itself goes through its scope as it was, but for its index.
add_thread-scope :
    (p : Passage) (sys sys' : System) (t : ℕ)
    → IsWellFormed sys
    → add_thread p t sys t ≡ some sys'
    → (x : Thread) × (v : Thread) × (parked_scope p.adapters p.sp p.waits p.meanwhile x ≡ some v)
      × (x.exec_status ≡ (sys.store t).exec_status)
      × (x.is_blocked_for_gc ≡ (sys.store t).is_blocked_for_gc)
      × ((sys'.store t).exec_status ≡ v.exec_status)
      × ((sys'.store t).is_blocked_for_gc ≡ v.is_blocked_for_gc)
unfolding add_thread register
add_thread-scope p sys sys' t w e = elim (Option-cases (process_about_to_terminate sys)) [
  | inl o ↦ absurd (ground (arith, e, o))
  | inr (u, o) ↦
      let x = (register u t).store t in
      let same : u.store t ≡ sys.store t =
        ap (λ f. f t) (process_about_to_terminate-Keeps sys u w o).same_store in
      elim (Option-cases (parked_scope p.adapters p.sp p.waits p.meanwhile x)) [
        | inl k ↦ absurd (ground (arith, e, o, k))
        | inr (v, k) ↦
            let index = x.index_in_manager in
            let r = register u t in
            let q : record r { store = put r.store t (record v { index_in_manager = index }) }
                ≡ sys' =
              ground (arith, e, o, k) in
            (
              x,
              v,
              k,
              ground (arith, same),
              ground (arith, same),
              ap (λ (y : System). (y.store t).exec_status) (sym q) ∙ ground arith,
              ap (λ (y : System). (y.store t).is_blocked_for_gc) (sym q) ∙ ground arith,
            )
      ]
]

-- Other threads neither start a new thread nor block it.
abbrev pub KeepsNew : (Thread → Thread) → Type 0
KeepsNew f =
    (u : Thread)
    → u.exec_status ≡ new
    → ((f u).exec_status ≡ new) × ((f u).is_blocked_for_gc ≡ u.is_blocked_for_gc)

-- A new thread does not enter native code for a scope.
parked_scope-new :
    (p : Passage) (x v : Thread)
    → parked_scope p.adapters p.sp p.waits p.meanwhile x ≡ some v
    → x.exec_status ≡ new
    → v ≡ p.meanwhile x
unfolding parked_scope
parked_scope-new p x v e h = ground (arith, e, h)

-- What `bind_mutator` does.
pub record Binds (t : ℕ) (p q : Process) : Type 0 where
  pub threads : q.system.manager ≡ p.system.manager
  pub formed : IsWellFormed p.system → IsWellFormed q.system
  pub status : (q.system.store t).exec_status ≡ (p.system.store t).exec_status
  pub blocked : (q.system.store t).is_blocked_for_gc ≡ (p.system.store t).is_blocked_for_gc
  pub current : (q.current_thread ≡ p.current_thread) × (q.registered ≡ p.registered)
  pub fast : (q.natives t).alloc_fastpath ≡ (p.natives t).alloc_fastpath
  pub mutator : (q.natives t).mutator ≡ (p.natives t).mutator || is_candidate (p.system.store t)

pub bind_mutator-Binds : (t : ℕ) (p : Process) → Binds t p (bind_mutator t p)
unfolding bind_mutator
bind_mutator-Binds t p = elim (Bool-cases (is_candidate (p.system.store t))) [
  | inr b ↦ rw b (record {
    threads = refl;
    formed = λ w. w;
    status = refl;
    blocked = refl;
    current = (refl, refl);
    fast = refl;
    mutator = ground (arith, b);
  })
  | inl b ↦
      let s = enable_yieldpoints-same (p.system.store t) in
      rw b (record {
        threads = refl;
        formed = put-IsWellFormed p.system t (enable_yieldpoints (p.system.store t)) s.0;
        status = ground (arith, s.1);
        blocked = ground (arith, s.2);
        current = (refl, refl);
        fast = ground (arith, b);
        mutator = ground (arith, b);
      })
]

-- The thread has begun, in a process that was `p`. From a state other than `New` and `InNative`, it
-- has come back to managed code from the scope of its registration; a new thread stays new.
pub record HasBegun (plan : Plan) (passage : Passage) (t : ℕ) (p q : Process) : Type 0 where
  pub slot : Registered t (length p.system.manager.threads) q.system
  pub status :
      passage.adapters ≡ gc_adapters
      → (p.system.store t).exec_status ≢ in_native
      → (p.system.store t).exec_status ≢ new
      → (q.system.store t).exec_status ≡ in_managed
  pub fresh :
      (p.system.store t).exec_status ≡ new
      → KeepsNew passage.meanwhile
      → ((q.system.store t).exec_status ≡ new)
        × ((q.system.store t).is_blocked_for_gc ≡ (p.system.store t).is_blocked_for_gc)
  pub current : (q.current_thread ≡ some t) × (q.registered ≡ true)
  pub fast : (q.natives t).alloc_fastpath ≡ fast_path plan.selector
  pub mutator : (q.natives t).mutator ≡ (p.natives t).mutator || is_candidate (p.system.store t)

pub enrol-HasBegun :
    (plan : Plan) (os : Os) (t : ℕ) (p q : Process)
    → IsWellFormed p.system
    → IsNew p.system t
    → (p.current_thread ≡ some t) × (p.registered ≡ true)
    → (p.natives t).alloc_fastpath ≡ fast_path plan.selector
    → enrol os t p ≡ some q
    → HasBegun plan os.passage t p q
unfolding enrol set_handle
enrol-HasBegun plan os t p q w n c f e =
    let b = bind_mutator-Binds t p in
    let r = bind_mutator t p in
    let n' : IsNew r.system t =
      subst (λ m. (i : ℕ) → get_elem? m.threads i ≢ some (some t)) (sym b.threads) n in
    let k : r.current_thread ≡ some t = b.current.0 ∙ c.0 in
    elim (Option-cases (add_thread os.passage t r.system t)) [
      | inl o ↦ absurd (ground (arith, e, k, o))
      | inr (sys, o) ↦
          let g = add_thread-IsWellFormed os.passage t r.system sys t (b.formed w) n' o in
          let (x, v, scope, status, blocked, status', blocked') =
            add_thread-scope os.passage r.system sys t (b.formed w) o in
          let eq : set_handle os t (record r { system = sys }) ≡ q = ground (arith, e, k, o) in
          subst (HasBegun plan os.passage t p) eq (record {
            slot = subst (λ m. Registered t (length m.threads) sys) b.threads g;
            status = λ gc m l.
                status'
                ∙ parked_scope-in_managed os.passage.sp os.passage.waits os.passage.meanwhile x v
                    (λ h. m (sym b.status ∙ sym status ∙ h))
                    (λ h. l (sym b.status ∙ sym status ∙ h))
                    (subst
                      (λ (a : List BlockAdapter).
                        parked_scope a os.passage.sp os.passage.waits os.passage.meanwhile x
                        ≡ some v)
                      gc scope);
            fresh = λ h keep.
                let hx : x.exec_status ≡ new = status ∙ b.status ∙ h in
                let m = parked_scope-new os.passage x v scope hx in
                (
                  status' ∙ ap (λ (y : Thread). y.exec_status) m ∙ (keep x hx).0,
                  blocked'
                      ∙ ap (λ (y : Thread). y.is_blocked_for_gc) m
                      ∙ (keep x hx).1
                      ∙ blocked
                      ∙ b.blocked,
                );
            current = (k, b.current.1 ∙ c.1);
            fast = ground (arith, b.fast, f);
            mutator = ground (arith, b.mutator);
          })
    ]

-- When a thread that is in no slot begins in a process with well-formed slots, and it does not panic
-- or wait for ever, it has a slot, whose number it knows, among well-formed slots that are no fewer
-- than before; it is the current and registered thread of its native thread; it has the fast path of
-- the plan's allocator, and a mutator exactly if it had one or takes part in collections. With the
-- adapters of BDWGC, it runs managed code, whatever other threads do in the scope of its
-- registration, if it was neither in native code nor new; a new thread stays new and is blocked as
-- before, if the others neither start it nor block it.
pub attach-HasBegun :
    (plan : Plan) (os : Os) (t : ℕ) (p q : Process)
    → IsWellFormed p.system
    → IsNew p.system t
    → attach plan os t p ≡ some q
    → HasBegun plan os.passage t p q
unfolding attach configure set_stack_bounds set_tid init_current_thread
attach-HasBegun plan os t p q w n e = elim (Option-cases (p.natives t).stack_bounds) [
  | inr (x, h) ↦ absurd (ground (arith, e, h))
  | inl h ↦
      let p1 = init_current_thread t (set_tid os t p) in
      let bounded = record (p1.natives t) { stack_bounds = some os.stack_bounds } in
      let p2 = configure plan t (set_native p1 t bounded) in
      let r =
        enrol-HasBegun plan os t p2 q w n (refl, refl) (ground arith) (ground (arith, e, h)) in
      record {
        slot = r.slot;
        status = r.status;
        fresh = r.fresh;
        current = r.current;
        fast = r.fast;
        mutator = ground (arith, r.mutator);
      }
]
