-- ===== src/Thread/Yieldpoints.antt =====
-- Yieldpoints that are taken, and yieldpoints that are deferred while they are disabled.
use vmkit_core.Prelude.{
  ℕ, ◌≡◌, ◌≢◌, inl, inr, true, false, some, arith, List, [], ◌∷◌, ◌⊎◌, Bool-cases, Option-cases,
}
use vmkit_core.Thread.{
  Thread, ThreadState, in_managed, terminated, enable_yieldpoints, disable_yieldpoints,
}
use vmkit_core.Thread.Adapters.{gc_block_adapter, gc_adapters}
use vmkit_core.Thread.Blocking.{
  Wait, check_block, check_block_no_save_context, yieldpoint, wait_loop, must_wait, block_self,
}
use vmkit_core.Thread.CheckBlock.{check_block_no_save_context-done}

-- A yieldpoint that comes while yieldpoints are disabled once is deferred, never lost: it returns
-- at once, and enabling them again sets `take_yieldpoint`, clears the note that a yieldpoint is
-- pending, and leaves the thread's state, its requests and its count as they were before.
pub enable_yieldpoints-deferred :
    (sp : ℕ) (ws : List Wait) (t : Thread)
    → t.yieldpoints_enabled_count ≡ 1
    → (u : Thread) × (yieldpoint gc_adapters sp ws (disable_yieldpoints t) ≡ some u)
      × (enable_yieldpoints u ≡ record t {
        take_yieldpoint = 1;
        yieldpoint_request_pending = false;
        at_yieldpoint = false;
      })
unfolding yieldpoint enable_yieldpoints disable_yieldpoints
enable_yieldpoints-deferred sp ws t one = (
  record (disable_yieldpoints t) {
    yieldpoint_request_pending = true;
    take_yieldpoint = 0;
    at_yieldpoint = false;
  },
  ground arith,
  ground arith,
)

-- A yieldpoint that is taken, while yieldpoints are enabled and `take_yieldpoint` is set, returns
-- only when the thread has no request and no block for GC left; it is then in managed code and no
-- longer marked as standing at a yieldpoint.
pub yieldpoint-taken :
    (sp : ℕ) (ws : List Wait) (t u : Thread)
    → t.yieldpoints_enabled_count ≡ 1
    → t.take_yieldpoint ≢ 0
    → yieldpoint gc_adapters sp ws t ≡ some u
    → (u.is_blocked_for_gc ≡ false)
      × (u.should_block_for_gc ≡ false)
      × (u.exec_status ≡ in_managed)
      × (u.at_yieldpoint ≡ false)
unfolding yieldpoint check_block
yieldpoint-taken sp ws t u one taken e =
    let s = record t { at_yieldpoint = true; take_yieldpoint = 0; stack_pointer = sp } in
    elim (Option-cases (check_block_no_save_context gc_adapters ws s)) [
      | inl n ↦ ground (arith, n)
      | inr (v, n) ↦ ground (arith, n, check_block_no_save_context-done ws s v n)
    ]

-- A thread that blocks itself for GC returns in the state `InManaged`, with no request and no
-- block left.
pub block_self-done :
    (sp : ℕ) (ws : List Wait) (t u : Thread) (s : ThreadState)
    → block_self gc_block_adapter gc_adapters sp ws t ≡ some (s, u)
    → (s ≡ in_managed) × (u.is_blocked_for_gc ≡ false) × (u.should_block_for_gc ≡ false)
unfolding block_self check_block
block_self-done sp ws t u s e =
    let r = record t { should_block_for_gc = true; stack_pointer = sp } in
    elim (Option-cases (check_block_no_save_context gc_adapters ws r)) [
      | inl n ↦ ground (arith, n)
      | inr (v, n) ↦ ground (arith, n, check_block_no_save_context-done ws r v n)
    ]

-- The wait for another thread ends only when that thread has no request left, is blocked for GC,
-- or is about to terminate; the result is `Terminated` in the last case, and otherwise the state
-- in which the thread is then.
pub wait_loop-done :
    (ws : List Wait) (t u : Thread) (s : ThreadState)
    → wait_loop gc_block_adapter ws t ≡ some (s, u)
    → ((u.should_block_for_gc ≡ false)
        ⊎ (u.is_blocked_for_gc ≡ true)
        ⊎ (u.is_about_to_terminate ≡ true))
      × (s ≡ (elim u.is_about_to_terminate [ true ↦ terminated | false ↦ u.exec_status ]))
unfolding wait_loop
wait_loop-done [] t u s e = ground arith
wait_loop-done (w ∷ ws) t u s e = elim (Bool-cases (must_wait gc_block_adapter t)) [
  | inl b ↦ wait_loop-done ws (w t) u s (rw (b, wait_loop) at e)
  | inr b ↦ ground arith
]
