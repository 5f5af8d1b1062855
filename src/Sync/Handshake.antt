-- ===== src/Sync/Handshake.antt =====
-- vmkit/src/sync/monitor.rs: the operations of `Monitor` that let the thread be blocked while it
-- waits for the lock. What other threads do at each point where they can interfere is a function.
-- `save_thread_state` of the context is left out.
use vmkit_core.Prelude.{
  ℕ, ◌+◌, ◌-◌, ◌∙◌, sym, subst, ◌≡◌, ◌≢◌, not, true, false, inl, inr, if◌then◌else◌, List, [], ◌∷◌,
  Option, none, some, ◌==◌, ◌>>=◌, arith, Bool-cases, Option-cases,
}
use vmkit_core.Thread.{Thread, ThreadState, attempt_fast_exec_status_transition, set_exec_status}
use vmkit_core.Thread.Adapters.{BlockAdapter, gc_block_adapter, gc_adapters}
use vmkit_core.Thread.Blocking.{
  Wait, enter_native, attempt_leave_native_no_block, leave_native, request_block_on, must_wait,
}
use vmkit_core.Thread.Parked.{parked_scope}
use vmkit_core.Sync.{Monitor, lock_mutex, begin_wait, end_wait, unlock_completely, drop_guard}

-- A round of the loop: the stack pointer, what happens to the thread and to the monitor until the
-- mutex is given to the thread, what happens to the thread in each wait while it blocks, and what
-- happens to the monitor until it has blocked.
pub record Round : Type 0 where
  pub sp : ℕ
  pub meanwhile : Thread → Thread
  pub until_free : Monitor → Monitor
  pub waits : List Wait
  pub until_left : Monitor → Monitor

module _ (adapters : List BlockAdapter) (me : ℕ) where
  -- The loop of `lock_with_handshake_no_rec` and of `relock_with_handshake`; `none` while the thread
  -- has not got the lock.
  pub acquire : List Round → Thread → Monitor → Option (Thread × Monitor)
  unfolding lock_mutex enter_native attempt_leave_native_no_block leave_native
  acquire [] t m = none
  acquire (r ∷ rs) t m = do
    m' ← lock_mutex me (r.until_free m)
    let (left, u) =
        attempt_leave_native_no_block adapters (r.meanwhile (enter_native adapters r.sp t))
    elim left [
      | true ↦ some (u, m')
      | false ↦ (do
        v ← leave_native adapters r.waits u
        acquire rs v (r.until_left (record m' { mutex = 0 })))
    ]

  pub lock_with_handshake : List Round → Thread → Monitor → Option (Thread × Monitor)
  unfolding acquire
  lock_with_handshake rounds t m =
      if not (m.holder == me)
      then (do
        (u, m') ← acquire rounds t m
        some (u, record m' { holder = me; rec_count = m'.rec_count + 1 }))
      else some (t, record m { rec_count = m.rec_count + 1 })

  pub relock_with_handshake : List Round → ℕ → Thread → Monitor → Option (Thread × Monitor)
  unfolding acquire
  relock_with_handshake rounds rec_count t m = do
    (u, m') ← acquire rounds t m
    some (u, record m' { holder = me; rec_count = rec_count })

  -- `during` is what happens to the monitor until the thread is notified and has the mutex again, and
  -- `until_left` what happens to it until the thread has left the parked scope. The guard that is
  -- waited with is consumed, and dropped when the lock has been taken again.
  unfoldable pub wait_with_handshake :
      ℕ
      → List Wait
      → (meanwhile : Thread → Thread) → (during until_left : Monitor → Monitor) → List Round
      → Thread
      → Monitor
      → Option (Thread × Monitor)
  unfolding begin_wait end_wait unlock_completely relock_with_handshake drop_guard
  wait_with_handshake sp waits meanwhile during until_left rounds t m = do
    let (kept, holder, m1) = begin_wait m
    m2 ← end_wait me kept holder (during m1)
    let (rec_count, m3) = unlock_completely m2
    u ← parked_scope adapters sp waits meanwhile t
    (v, m4) ← relock_with_handshake rounds rec_count u (until_left m3)
    some (v, drop_guard m4)

-- What the drop of a guard leaves of a lock that `me` holds.
pub record Dropped (me : ℕ) (m m' : Monitor) : Type 0 where
  pub count : m'.rec_count ≡ m.rec_count - 1
  pub last : m.rec_count ≡ 1 → (m'.mutex ≡ 0) × (m'.holder ≡ 0)
  pub others : m.rec_count ≢ 1 → (m'.mutex ≡ me) × (m'.holder ≡ me)

-- The thread has the lock and runs managed code.
pub record Holds (me : ℕ) (t : Thread) (m : Monitor) : Type 0 where
  pub managed : t.exec_status ≡ ThreadState.in_managed
  pub mutex : m.mutex ≡ me

module _ (adapters : List BlockAdapter) (me : ℕ) where
  left-in_managed :
      (t : Thread)
      → (attempt_leave_native_no_block adapters t).0 ≡ true
      → (attempt_leave_native_no_block adapters t).1.exec_status ≡ ThreadState.in_managed
  unfolding attempt_leave_native_no_block attempt_fast_exec_status_transition set_exec_status
  left-in_managed t e = ground (arith, e)

  acquire-Holds :
      (rounds : List Round) (t u : Thread) (m m' : Monitor)
      → acquire adapters me rounds t m ≡ some (u, m')
      → Holds me u m'
  unfolding acquire lock_mutex
  acquire-Holds [] t u m m' e = absurd (ground (arith, e))
  acquire-Holds (r ∷ rs) t u m m' e =
      let native = r.meanwhile (enter_native adapters r.sp t) in
      let left = attempt_leave_native_no_block adapters native in
      elim (Option-cases (lock_mutex me (r.until_free m))) [
        | inl o ↦ absurd (ground (arith, e, o))
        | inr (m1, o) ↦ elim (Bool-cases left.0) [
          | inl b ↦ record {
            managed = ground (arith, e, o, b, left-in_managed native b);
            mutex = ground (arith, e, o, b);
          }
          | inr b ↦ elim (Option-cases (leave_native adapters r.waits left.1)) [
            | inl k ↦ absurd (ground (arith, e, o, b, k))
            | inr (v, k) ↦
                acquire-Holds rs v u (r.until_left (record m1 { mutex = 0 })) m'
                  (ground (arith, e, o, b, k))
          ]
        ]
      ]

  -- Whatever other threads do in each round: when `relock_with_handshake` returns, the thread runs
  -- managed code and has the mutex, of which it is the holder, with the count that was asked for.
  pub relock_with_handshake-Holds :
      (rounds : List Round) (rec_count : ℕ) (t u : Thread) (m m' : Monitor)
      → relock_with_handshake adapters me rounds rec_count t m ≡ some (u, m')
      → Holds me u m' × (m'.holder ≡ me) × (m'.rec_count ≡ rec_count)
  unfolding relock_with_handshake
  relock_with_handshake-Holds rounds rec_count t u m m' e =
      elim (Option-cases (acquire adapters me rounds t m)) [
        | inl o ↦ absurd (ground (arith, e, o))
        | inr ((v, n), o) ↦
            let h = acquire-Holds rounds t v m n o in
            (
              record {
                managed = ground (arith, e, o, h.managed);
                mutex = ground (arith, e, o, h.mutex);
              },
              ground (arith, e, o),
              ground (arith, e, o),
            )
      ]

  -- What the drop of a guard does to the lock of a thread that has it.
  dropped : (m : Monitor) (t : Thread) → Holds me t m → m.holder ≡ me → Dropped me m (drop_guard m)
  unfolding drop_guard
  dropped m t h e = record {
    count = ground arith;
    last = λ n. ground (arith, n);
    others = λ n. ground (arith, n, h.mutex, e);
  }

  -- Whatever other threads do before the thread is notified, while it leaves the parked scope and in
  -- each round of taking the lock again: when `wait_with_handshake` of a guard returns a new guard,
  -- the thread runs managed code, and the lock counts one guard fewer than before the wait. With the
  -- only guard, the mutex is free and has no holder although the thread has a guard for it; with one
  -- of several, the thread still has the mutex and is its holder.
  pub wait_with_handshake-loses_guard :
      (sp : ℕ) (waits : List Wait) (meanwhile : Thread → Thread)
      (during until_left : Monitor → Monitor) (rounds : List Round) (t u : Thread) (m m' : Monitor)
      → m.rec_count ≢ 0
      → wait_with_handshake adapters me sp waits meanwhile during until_left rounds t m
        ≡ some (u, m')
      → (u.exec_status ≡ ThreadState.in_managed)
        × (m'.rec_count + 1 ≡ m.rec_count)
        × (m.rec_count ≡ 1 → (m'.mutex ≡ 0) × (m'.holder ≡ 0))
        × (m.rec_count ≢ 1 → (m'.mutex ≡ me) × (m'.holder ≡ me))
  unfolding wait_with_handshake begin_wait end_wait unlock_completely
  wait_with_handshake-loses_guard sp waits meanwhile during until_left rounds t u m m' c e =
      elim (Option-cases (lock_mutex me (during (begin_wait m).2))) [
        | inl o ↦ absurd (ground (arith, e, o))
        | inr (n, o) ↦ elim (Option-cases (parked_scope adapters sp waits meanwhile t)) [
          | inl k ↦ absurd (ground (arith, e, o, k))
          | inr (v, k) ↦
              let free = until_left (record n { rec_count = 0; holder = 0; mutex = 0 }) in
              elim (Option-cases (relock_with_handshake adapters me rounds m.rec_count v free)) [
                | inl r ↦ absurd (ground (arith, e, o, k, r))
                | inr ((x, m4), r) ↦
                    let (h, holder, count) =
                      relock_with_handshake-Holds rounds m.rec_count v x free m4 r in
                    let same : drop_guard m4 ≡ m' = ground (arith, e, o, k, r) in
                    let thread : x ≡ u = ground (arith, e, o, k, r) in
                    let d = subst (Dropped me m4) same (dropped m4 x h holder) in
                    (
                      ground (arith, thread, h.managed),
                      omega (arith, d.count, count, c),
                      λ one. d.last (count ∙ one),
                      λ more. d.others (λ one. more (sym count ∙ one)),
                    )
              ]
        ]
      ]

  -- Whatever other threads do in each round: when `lock_with_handshake` returns to a thread that was
  -- not the holder, it runs managed code and has the mutex, of which it is the holder.
  pub lock_with_handshake-Holds :
      (rounds : List Round) (t u : Thread) (m m' : Monitor)
      → m.holder ≢ me
      → lock_with_handshake adapters me rounds t m ≡ some (u, m')
      → Holds me u m' × (m'.holder ≡ me)
  unfolding lock_with_handshake
  lock_with_handshake-Holds rounds t u m m' n e =
      elim (Option-cases (acquire adapters me rounds t m)) [
        | inl o ↦ absurd (ground (arith, e, o, n))
        | inr ((v, k), o) ↦
            let h = acquire-Holds rounds t v m k o in
            (
              record {
                managed = ground (arith, e, o, n, h.managed);
                mutex = ground (arith, e, o, n, h.mutex);
              },
              ground (arith, e, o, n),
            )
      ]

-- A round in which the collector asks the thread to block, and does nothing else to it.
abbrev pub asked : ℕ → List Wait → (until_free until_left : Monitor → Monitor) → Round
asked sp waits until_free until_left = record {
  sp = sp;
  meanwhile = λ t. (request_block_on gc_block_adapter t).1;
  until_free = until_free;
  waits = waits;
  until_left = until_left;
}

asked-blocked :
    (sp : ℕ) (t : Thread)
    → t.exec_status ≡ ThreadState.in_managed
    → t.is_about_to_terminate ≡ false
    → let u = (request_block_on gc_block_adapter (enter_native gc_adapters sp t)).1 in
      (u.is_blocked_for_gc ≡ true)
      × (u.should_block_for_gc ≡ false)
      × (u.exec_status ≡ ThreadState.blocked_in_native)
unfolding enter_native request_block_on
asked-blocked sp t h n = ground (arith, h, n)

refused :
    (t : Thread)
    → t.exec_status ≡ ThreadState.blocked_in_native
    → (attempt_leave_native_no_block gc_adapters t).0 ≡ false
unfolding attempt_leave_native_no_block
refused t h = ground (arith, h)

-- A thread that runs managed code, is not about to terminate and waits for a lock by
-- `lock_with_handshake` counts as blocked as soon as the collector asks it to block, so that the
-- collector does not wait for it; and if the mutex is given to it in that round, it does not return
-- with the lock in that round.
pub acquire-asked :
    (me sp : ℕ) (waits : List Wait) (until_free until_left : Monitor → Monitor) (t : Thread)
    (m : Monitor)
    → t.exec_status ≡ ThreadState.in_managed
    → t.is_about_to_terminate ≡ false
    → let u = (request_block_on gc_block_adapter (enter_native gc_adapters sp t)).1 in
      (u.is_blocked_for_gc ≡ true)
      × (must_wait gc_block_adapter u ≡ false)
      × (acquire gc_adapters me (asked sp waits until_free until_left ∷ []) t m ≡ none)
unfolding acquire must_wait
acquire-asked me sp waits until_free until_left t m h n =
    let u = (request_block_on gc_block_adapter (enter_native gc_adapters sp t)).1 in
    let (blocked, clear, status) = asked-blocked sp t h n in
    (
      blocked,
      ground (arith, clear),
      elim (Option-cases (lock_mutex me (until_free m))) [
        | inl o ↦ ground (arith, o)
        | inr (m1, o) ↦
            elim (Option-cases
              (leave_native gc_adapters waits (attempt_leave_native_no_block gc_adapters u).1)) [
                | inl k ↦ ground (arith, o, refused u status, k)
                | inr (v, k) ↦ ground (arith, o, refused u status, k)
              ]
      ],
    )
