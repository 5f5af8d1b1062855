-- ===== src/Thread/Status.antt =====
-- What a request to block another thread does, by the state of that thread.
use vmkit_core.Prelude.{◌≡◌, refl, ap, Bool, not, ◌&&◌, ◌||◌, true, false, some, arith, List}
use vmkit_core.Thread.{
  Thread, ThreadState, same_state, blocked_in_native, terminated, blocked_status, is_in_managed,
  set_exec_status, set_blocked_exec_status,
}
use vmkit_core.Thread.Adapters.{gc_block_adapter}
use vmkit_core.Thread.Blocking.{Wait, block_other}

-- The thread as an asynchronous GC request leaves it: a thread in native code is blocked at once,
-- any other has a pending request.
abbrev requested : Thread → Thread
requested t = elim (blocked_status t.exec_status) [
  | blocked_in_native ↦ record t {
    take_yieldpoint = 1;
    exec_status = blocked_in_native;
    should_block_for_gc = false;
    is_blocked_for_gc = true;
  }
  | s ↦ record t { take_yieldpoint = 1; exec_status = s; should_block_for_gc = true }
]

-- An asynchronous request never waits. A thread that is about to terminate only keeps the request,
-- and counts as terminated; any other gets the state that blocks it, which is returned: if that is
-- `BlockedInNative` it is blocked for GC with no request left, otherwise the request is pending.
pub block_other-async :
    (ws : List Wait) (t : Thread)
    → block_other gc_block_adapter true ws t
      ≡ some (elim t.is_about_to_terminate [
        | true ↦ (terminated, record t { should_block_for_gc = true })
        | false ↦ (blocked_status t.exec_status, requested t)
      ])
unfolding block_other blocked_status
block_other-async ws t = ground arith

status-in_managed :
    (s : ThreadState)
    → (same_state (blocked_status s) ThreadState.in_managed
        || same_state (blocked_status s) ThreadState.in_managed_to_block)
      ≡ (same_state s ThreadState.in_managed || same_state s ThreadState.in_managed_to_block)
unfolding blocked_status
status-in_managed ThreadState.new = refl
status-in_managed ThreadState.in_managed = refl
status-in_managed ThreadState.in_native = refl
status-in_managed ThreadState.in_managed_to_block = refl
status-in_managed ThreadState.blocked_in_native = refl
status-in_managed ThreadState.terminated = refl

status-to_block :
    (s : ThreadState)
    → (same_state s ThreadState.in_managed || same_state s ThreadState.in_managed_to_block) ≡ true
    → blocked_status s ≡ ThreadState.in_managed_to_block
unfolding blocked_status
status-to_block ThreadState.new h = ground (arith, h)
status-to_block ThreadState.in_managed h = refl
status-to_block ThreadState.in_native h = ground (arith, h)
status-to_block ThreadState.in_managed_to_block h = refl
status-to_block ThreadState.blocked_in_native h = ground (arith, h)
status-to_block ThreadState.terminated h = ground (arith, h)

-- A request to block does not change whether the thread runs managed code, and if it does then its
-- state asks it to block.
pub is_in_managed-set_blocked_exec_status :
    (t : Thread)
    → let u = (set_blocked_exec_status t).1 in
      (is_in_managed u ≡ is_in_managed t)
      × (is_in_managed t ≡ true → u.exec_status ≡ ThreadState.in_managed_to_block)
unfolding is_in_managed set_blocked_exec_status set_exec_status
is_in_managed-set_blocked_exec_status t = (
  ap (λ (b : Bool). not t.is_blocking && (not t.is_about_to_terminate && b))
      (status-in_managed t.exec_status),
  λ h. status-to_block t.exec_status (ground (arith, h)),
)
