-- ===== src/Thread/Parked.antt =====
-- vmkit/src/threading.rs: `parked_scope`, which runs code outside of managed code.
use vmkit_core.Prelude.{
  ℕ, ◌≡◌, ◌≢◌, refl, ◌||◌, if◌then◌else◌, Option, some, List, arith, inl, inr, Bool-cases,
}
use vmkit_core.Thread.{
  Thread, ThreadState, same_state, attempt_fast_exec_status_transition, set_exec_status,
}
use vmkit_core.Thread.Adapters.{BlockAdapter, gc_adapters}
use vmkit_core.Thread.Blocking.{Wait, enter_native, leave_native, attempt_leave_native_no_block}
use vmkit_core.Thread.CheckBlock.{check_block_no_save_context-done}

-- `f` is the code that runs, as it acts on the thread; `sp` is the stack pointer on entry.
unfoldable pub parked_scope :
    List BlockAdapter → ℕ → List Wait → (Thread → Thread) → Thread → Option Thread
unfolding enter_native leave_native
parked_scope adapters sp ws f t =
    if same_state t.exec_status ThreadState.in_native || same_state t.exec_status ThreadState.new
    then some (f t)
    else leave_native adapters ws (f (enter_native adapters sp t))

leave_native-in_managed :
    (ws : List Wait) (t t' : Thread)
    → leave_native gc_adapters ws t ≡ some t'
    → t'.exec_status ≡ ThreadState.in_managed
unfolding leave_native attempt_leave_native_no_block attempt_fast_exec_status_transition
    set_exec_status
leave_native-in_managed ws t t' e =
    elim (Bool-cases (same_state t.exec_status ThreadState.in_native)) [
      | inl b ↦ ground (arith, b, e)
      | inr b ↦ (check_block_no_save_context-done ws t t' (ground (arith, b, e))).2
    ]

-- A thread that was neither in native code nor new runs managed code again when the scope ends,
-- whatever the code in it and the other threads do to it.
pub parked_scope-in_managed :
    (sp : ℕ) (ws : List Wait) (f : Thread → Thread) (t t' : Thread)
    → t.exec_status ≢ ThreadState.in_native
    → t.exec_status ≢ ThreadState.new
    → parked_scope gc_adapters sp ws f t ≡ some t'
    → t'.exec_status ≡ ThreadState.in_managed
unfolding parked_scope
parked_scope-in_managed sp ws f t t' n m e =
    leave_native-in_managed ws (f (enter_native gc_adapters sp t)) t' (
      outside (some (f t)) (leave_native gc_adapters ws (f (enter_native gc_adapters sp t)))
        (some t') t.exec_status n m e)
  where
    outside :
        {A : Type 0} (x y z : A) (s : ThreadState)
        → s ≢ ThreadState.in_native
        → s ≢ ThreadState.new
        → (if same_state s ThreadState.in_native || same_state s ThreadState.new then x else y) ≡ z
        → y ≡ z
    outside x y z ThreadState.in_native n m e = absurd (n refl)
    outside x y z ThreadState.new n m e = absurd (m refl)
    outside x y z ThreadState.in_managed n m e = e
    outside x y z ThreadState.in_managed_to_block n m e = e
    outside x y z ThreadState.blocked_in_native n m e = e
    outside x y z ThreadState.terminated n m e = e
