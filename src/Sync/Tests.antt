-- ===== src/Sync/Tests.antt =====
-- Two threads and one monitor.
use vmkit_core.Prelude.{◌>>=◌, ℕ, ◌+◌, ◌≡◌, ◌≢◌, refl, arith, true, false, none, some, [], ◌∷◌}
use vmkit_core.Thread.{Thread, in_managed}
use vmkit_core.Thread.Adapters.{gc_adapters, gc_block_adapter}
use vmkit_core.Thread.Blocking.{enter_native, request_block_on, must_wait}
use vmkit_core.Thread.Parked.{parked_scope}
use vmkit_core.Sync.Pairing.{
  Locks, lock_communication, begin_pair_with_current, begin_pair_with_current-deadlock,
}
use vmkit_core.Sync.Handshake.{
  Round, acquire, asked, wait_with_handshake, wait_with_handshake-loses_guard, acquire-asked,
}
use vmkit_core.Sync.{Monitor, new, Threads, at}

-- Thread 7 has locked the monitor twice.
abbrev twice : Threads
twice = record {
  monitor = record { mutex = 7; rec_count = 2; holder = 7 };
  guards = at (at (λ t. 0) 7 1) 7 2;
  suspended = λ t. 0;
}

-- Thread 7, which runs managed code and holds the lock twice.
abbrev running : Thread
running = record {
  take_yieldpoint = 0;
  has_collector_context = false;
  exec_status = in_managed;
  ignore_handshakes_and_gc = false;
  is_about_to_terminate = false;
  is_blocking = false;
  is_joinable = false;
  thread_id = 7;
  index_in_manager = 0;
  yieldpoints_enabled_count = 1;
  yieldpoint_request_pending = false;
  at_yieldpoint = false;
  soft_handshake_requested = false;
  active_mutator_context = true;
  is_blocked_for_gc = false;
  should_block_for_gc = false;
  stack_pointer = 0;
  suspend_count = 0;
}

-- A round without interference.
abbrev quiet : Round
quiet = record { sp = 64; meanwhile = λ t. t; until_free = λ m. m; waits = []; until_left = λ m. m }

abbrev in_native_at : ℕ → Thread
in_native_at sp = record running { stack_pointer = sp }

-- The lock after a wait with one of two guards.
abbrev once : Monitor
once = record { mutex = 7; rec_count = 1; holder = 7 }

waited :
    wait_with_handshake gc_adapters 7 64 []
      (λ t. t)
      (λ m. m)
      (λ m. m)
      (quiet ∷ [])
      running
      twice.monitor
    ≡ some (in_native_at 64, once)
unfolding wait_with_handshake parked_scope
waited = refl

-- The only guard is lost.
waited_once :
    wait_with_handshake gc_adapters 7 64 [] (λ t. t) (λ m. m) (λ m. m) (quiet ∷ []) running once
    ≡ some (in_native_at 64, new)
unfolding wait_with_handshake parked_scope
waited_once = refl

wait_with_handshake-loses_guard_example :
    ((in_native_at 64).exec_status ≡ in_managed)
    × (0 + 1 ≡ 1)
    × (once.rec_count ≡ 1 → (new.mutex ≡ 0) × (new.holder ≡ 0))
    × (once.rec_count ≢ 1 → (new.mutex ≡ 7) × (new.holder ≡ 7))
wait_with_handshake-loses_guard_example =
    wait_with_handshake-loses_guard gc_adapters 7 64 [] (λ t. t) (λ m. m) (λ m. m) (quiet ∷ [])
      running (in_native_at 64) once new (ground arith) waited_once

acquire-asked_example :
    let u = (request_block_on gc_block_adapter (enter_native gc_adapters 64 running)).1 in
    (u.is_blocked_for_gc ≡ true)
    × (must_wait gc_block_adapter u ≡ false)
    × (acquire gc_adapters 7 (asked 64 [] (λ m. m) (λ m. m) ∷ []) running new ≡ none)
acquire-asked_example = acquire-asked 7 64 [] (λ m. m) (λ m. m) running new refl refl

abbrev free_locks : Locks
free_locks t = new

begin_pair_with_current-deadlock_example :
    (l1 : Locks) × (l2 : Locks) × (begin_pair_with_current 7 8 free_locks
      ≡ (lock_communication 7 8 free_locks >>= lock_communication 7 7))
    × (begin_pair_with_current 8 7 l1 ≡ (lock_communication 8 7 l1 >>= lock_communication 8 8))
    × (lock_communication 7 8 free_locks ≡ some l1)
    × (lock_communication 8 7 l1 ≡ some l2)
    × (lock_communication 7 7 l2 ≡ none)
    × (lock_communication 8 8 l2 ≡ none)
begin_pair_with_current-deadlock_example =
    begin_pair_with_current-deadlock 7 8 free_locks (ground arith) (ground arith) (ground arith)
      (refl, refl, refl) (refl, refl, refl)
