-- ===== src/Thread/Blocking.antt =====
-- vmkit/src/threading.rs: requests to block, and the places where a thread acknowledges them.
-- The monitor is held from `lock_no_handshake` to the drop of its guard, except in a wait, where
-- other threads run: what they do to the thread during the waits is a list of functions.
use vmkit_core.Prelude.{
  ℕ, Bool, true, false, not, ◌&&◌, if◌then◌else◌, List, [], ◌∷◌, Option, none, some, ◌==◌, ◌>>=◌,
}
use vmkit_core.Thread.{
  Thread, ThreadState, same_state, set_exec_status, set_blocked_exec_status, yieldpoints_enabled,
  attempt_fast_exec_status_transition,
}
use vmkit_core.Thread.Adapters.{BlockAdapter, acknowledge_block_requests, is_blocked}

-- What happens to the thread during one `wait_no_handshake` of its own.
abbrev pub Wait : Type 0
Wait = Thread → Thread

module _ (adapters : List BlockAdapter) where
  -- The loop of `check_block_no_save_context`; `none` while it still waits.
  unfoldable pub check_block_loop : List Wait → Thread → Option Thread
  check_block_loop [] t =
      let t' = (acknowledge_block_requests adapters t).1 in
      if is_blocked adapters t' then none else some t'
  check_block_loop (w ∷ ws) t =
      let t' = (acknowledge_block_requests adapters t).1 in
      let rest = check_block_loop ws (w t') in if is_blocked adapters t' then rest else some t'

  unfoldable pub check_block_no_save_context : List Wait → Thread → Option Thread
  unfolding check_block_loop set_exec_status
  check_block_no_save_context ws t = do
    t' ← check_block_loop ws (record t { is_blocking = true })
    some (record (set_exec_status t' ThreadState.in_managed) { is_blocking = false })

  -- `sp` is the current stack pointer.
  unfoldable pub check_block : ℕ → List Wait → Thread → Option Thread
  unfolding check_block_no_save_context
  check_block sp ws t = check_block_no_save_context ws (record t { stack_pointer = sp })

  unfoldable pub enter_native_blocked_impl : Thread → Thread
  unfolding set_exec_status
  enter_native_blocked_impl t =
      (acknowledge_block_requests adapters (set_exec_status t ThreadState.blocked_in_native)).1

  -- `enter_native`, when no other thread interferes between its load and its compare-exchange.
  unfoldable pub enter_native : ℕ → Thread → Thread
  unfolding enter_native_blocked_impl attempt_fast_exec_status_transition
  enter_native sp t =
      let t' = record t { stack_pointer = sp } in
      if same_state t'.exec_status ThreadState.in_managed
      then (attempt_fast_exec_status_transition t' ThreadState.in_managed ThreadState.in_native).1
      else enter_native_blocked_impl t'

  unfoldable pub attempt_leave_native_no_block : Thread → Bool × Thread
  unfolding attempt_fast_exec_status_transition
  attempt_leave_native_no_block t =
      if same_state t.exec_status ThreadState.in_native
      then attempt_fast_exec_status_transition t ThreadState.in_native ThreadState.in_managed
      else (false, t)

  unfoldable pub leave_native : List Wait → Thread → Option Thread
  unfolding attempt_leave_native_no_block check_block_no_save_context
  leave_native ws t =
      let r = attempt_leave_native_no_block t in
      if r.0 then some r.1 else check_block_no_save_context ws r.1

  -- `yieldpoint`, with the hooks of the context left out: they get no access to the thread's
  -- scheduling state.
  unfoldable pub yieldpoint : ℕ → List Wait → Thread → Option Thread
  unfolding yieldpoints_enabled check_block
  yieldpoint sp ws t =
      let t' = record t { at_yieldpoint = true } in
      if not (yieldpoints_enabled t')
      then some (record t' {
        yieldpoint_request_pending = true;
        take_yieldpoint = 0;
        at_yieldpoint = false;
      })
      else (do
        u ←
            (if t'.take_yieldpoint == 0
              then some t'
              else check_block sp ws (record t' { take_yieldpoint = 0 }))
        some (record u { at_yieldpoint = false }))

module _ (a : BlockAdapter) where
  -- The part of `block_unchecked` on another thread up to the end of its critical section, or to
  -- its first wait: the state that it returns if it does not wait, and the thread.
  unfoldable pub request_block_on : Thread → ThreadState × Thread
  unfolding set_blocked_exec_status
  request_block_on t =
      let t1 = a.request_block t in
      if t1.is_about_to_terminate
      then (ThreadState.terminated, t1)
      else (let t2 = record t1 { take_yieldpoint = 1 } in
          let (new_state, t3) = set_blocked_exec_status t2 in
          if same_state new_state ThreadState.blocked_in_native
          then (new_state, a.set_blocked (a.clear_block_request t3) true)
          else (new_state, t3))

  -- The `while` condition of the synchronous wait.
  unfoldable pub must_wait : Thread → Bool
  must_wait t = a.has_block_request t && (not (a.is_blocked t) && not t.is_about_to_terminate)

  -- The wait loop and the result after it; `none` while it still waits.
  unfoldable pub wait_loop : List Wait → Thread → Option (ThreadState × Thread)
  unfolding must_wait
  wait_loop [] t =
      if must_wait t
      then none
      else some (if t.is_about_to_terminate then ThreadState.terminated else t.exec_status, t)
  wait_loop (w ∷ ws) t =
      let rest = wait_loop ws (w t) in
      if must_wait t
      then rest
      else some (if t.is_about_to_terminate then ThreadState.terminated else t.exec_status, t)

  -- `block_unchecked` of another thread.
  unfoldable pub block_other : Bool → List Wait → Thread → Option (ThreadState × Thread)
  unfolding request_block_on wait_loop
  block_other asynchronous ws t =
      let (result, t') = request_block_on t in
      if not t.is_about_to_terminate
        && (same_state result ThreadState.in_managed_to_block && not asynchronous)
      then wait_loop ws t'
      else some (result, t')

  -- `block_unchecked` of the current thread.
  unfoldable pub block_self :
      List BlockAdapter → ℕ → List Wait → Thread → Option (ThreadState × Thread)
  unfolding check_block
  block_self adapters sp ws t = do
    t' ← check_block adapters sp ws (a.request_block t)
    some (t'.exec_status, t')

  unfoldable pub unblock : Thread → Thread
  unblock t = a.set_blocked (a.clear_block_request t) false
