-- ===== src/Thread/Tests.antt =====
-- A thread that blocks at a yieldpoint, and threads that are asked to block.
use vmkit_core.Prelude.{◌≡◌, refl, true, false, List, [], ◌∷◌, some}
use vmkit_core.Thread.{Thread, in_managed, in_managed_to_block}
use vmkit_core.Thread.Adapters.{
  gc_block_adapter, gc_adapters, acknowledge_block_requests, is_blocked,
}
use vmkit_core.Thread.Blocking.{Wait, unblock, yieldpoint, wait_loop, check_block_no_save_context}
use vmkit_core.Thread.Suspension.{suspend, suspend_loop}
use vmkit_core.Thread.CheckBlock.{
  check_block_no_save_context-done, check_block_no_save_context-total,
}

abbrev thread : Thread
thread = record {
  take_yieldpoint = 1;
  has_collector_context = false;
  exec_status = in_managed_to_block;
  ignore_handshakes_and_gc = false;
  is_about_to_terminate = false;
  is_blocking = false;
  is_joinable = false;
  thread_id = 1;
  index_in_manager = 0;
  yieldpoints_enabled_count = 1;
  yieldpoint_request_pending = false;
  at_yieldpoint = false;
  soft_handshake_requested = false;
  active_mutator_context = true;
  is_blocked_for_gc = false;
  should_block_for_gc = true;
  stack_pointer = 0;
  suspend_count = 0;
}

-- What a collection does in a wait of the thread: nothing at first, then it unblocks the thread.
abbrev waits : List Wait
waits = (λ t. t) ∷ unblock gc_block_adapter ∷ []

-- The thread after the block.
abbrev after : Thread
after = record thread { exec_status = in_managed; should_block_for_gc = false }

check_block_no_save_context-total_example :
    (t' : Thread) × (check_block_no_save_context gc_adapters
        ((λ t. t) ∷ unblock gc_block_adapter ∷ [])
        thread
      ≡ some t')
check_block_no_save_context-total_example =
    check_block_no_save_context-total ((λ t. t) ∷ []) [] thread

checked : check_block_no_save_context gc_adapters waits thread ≡ some after
unfolding check_block_no_save_context is_blocked acknowledge_block_requests unblock
checked = refl

check_block_no_save_context-done_example :
    (after.is_blocked_for_gc ≡ false)
    × (after.should_block_for_gc ≡ false)
    × (after.exec_status ≡ in_managed)
    × (after.is_blocking ≡ false)
check_block_no_save_context-done_example =
    check_block_no_save_context-done waits thread after checked

abbrev yielded : Thread
yielded = record after { take_yieldpoint = 0; stack_pointer = 64 }

yields : yieldpoint gc_adapters 64 waits thread ≡ some yielded
unfolding yieldpoint is_blocked acknowledge_block_requests unblock
yields = refl

-- Two attempts, of which the first meets an alternative signal stack.
suspends :
    suspend ((true, 0) ∷ (true, 64) ∷ []) thread
    ≡ some (true, record thread { suspend_count = 1; stack_pointer = 64 })
unfolding suspend suspend_loop
suspends = refl

-- The thread blocks in the second wait of the requester.
abbrev acknowledges : Wait
acknowledges t = record t { should_block_for_gc = false; is_blocked_for_gc = true }

abbrev acknowledged : Thread
acknowledged = record thread { should_block_for_gc = false; is_blocked_for_gc = true }

waited :
    wait_loop gc_block_adapter ((λ t. t) ∷ acknowledges ∷ []) thread
    ≡ some (in_managed_to_block, acknowledged)
unfolding wait_loop
waited = refl
