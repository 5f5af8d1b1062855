-- ===== src/Thread/CheckBlock.antt =====
-- A thread that checks whether it has to block, under any behaviour of the other threads.
use vmkit_core.Prelude.{
  ◌≡◌, inl, inr, refl, true, false, some, arith, List, [], ◌∷◌, ◌++◌, Bool-cases, Option-cases,
}
use vmkit_core.Thread.{Thread, in_managed, set_exec_status}
use vmkit_core.Thread.Adapters.{
  gc_block_adapter, gc_adapters, acknowledge_block_requests, is_blocked,
}
use vmkit_core.Thread.Blocking.{Wait, check_block_loop, check_block_no_save_context, unblock}

check_block_loop-done :
    (ws : List Wait) (t t' : Thread)
    → check_block_loop gc_adapters ws t ≡ some t'
    → (t'.is_blocked_for_gc ≡ false) × (t'.should_block_for_gc ≡ false)
unfolding check_block_loop acknowledge_block_requests is_blocked
check_block_loop-done [] t t' e = ground arith
check_block_loop-done (w ∷ ws) t t' e =
    let u = (acknowledge_block_requests gc_adapters t).1 in
    elim (Bool-cases (is_blocked gc_adapters u)) [
      | inl b ↦ check_block_loop-done ws (w u) t' (rw (b, check_block_loop) at e)
      | inr b ↦ ground arith
    ]

-- A thread that was just unblocked leaves the loop at once.
check_block_loop-unblocked :
    (ws : List Wait) (t : Thread)
    → (t' : Thread) × (check_block_loop gc_adapters ws (unblock gc_block_adapter t) ≡ some t')
unfolding check_block_loop acknowledge_block_requests is_blocked unblock
check_block_loop-unblocked [] t = (unblock gc_block_adapter t, ground arith)
check_block_loop-unblocked (w ∷ ws) t = (unblock gc_block_adapter t, ground arith)

check_block_loop-total :
    (before after : List Wait) (t : Thread)
    → (t' : Thread) × (check_block_loop gc_adapters (before ++ unblock gc_block_adapter ∷ after) t
        ≡ some t')
unfolding check_block_loop
check_block_loop-total [] after t =
    let u = (acknowledge_block_requests gc_adapters t).1 in
    elim (Bool-cases (is_blocked gc_adapters u)) [
      | inl b ↦ rw b (check_block_loop-unblocked after u)
      | inr b ↦ (u, rw b)
    ]
check_block_loop-total (w ∷ before) after t =
    let u = (acknowledge_block_requests gc_adapters t).1 in
    elim (Bool-cases (is_blocked gc_adapters u)) [
      | inl b ↦ rw b (check_block_loop-total before after (w u))
      | inr b ↦ (u, rw b)
    ]

-- Whatever other threads do while it waits: when the check returns, the thread has no request and
-- no block for GC left, its state is `InManaged`, and it is not marked as blocking.
pub check_block_no_save_context-done :
    (ws : List Wait) (t t' : Thread)
    → check_block_no_save_context gc_adapters ws t ≡ some t'
    → (t'.is_blocked_for_gc ≡ false)
      × (t'.should_block_for_gc ≡ false)
      × (t'.exec_status ≡ in_managed)
      × (t'.is_blocking ≡ false)
unfolding check_block_no_save_context
check_block_no_save_context-done ws t t' e =
    elim (Option-cases (check_block_loop gc_adapters ws (record t { is_blocking = true }))) [
      | inl n ↦ ground (arith, n)
      | inr (u, n) ↦
          ground (arith, n, check_block_loop-done ws (record t { is_blocking = true }) u n)
    ]

-- Whatever other threads do in the waits before: a wait in which the thread is unblocked for GC is
-- the last one, and the check returns.
pub check_block_no_save_context-total :
    (before after : List Wait) (t : Thread)
    → (t' : Thread) × (check_block_no_save_context gc_adapters
          (before ++ unblock gc_block_adapter ∷ after)
          t
        ≡ some t')
unfolding check_block_no_save_context
check_block_no_save_context-total before after t =
    let r = check_block_loop-total before after (record t { is_blocking = true }) in
    (
      record (set_exec_status r.0 in_managed) { is_blocking = false },
      rw (r.1, check_block_no_save_context) refl,
    )
