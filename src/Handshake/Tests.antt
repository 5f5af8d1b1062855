-- ===== src/Handshake/Tests.antt =====
-- A mutator that is asked to block while it runs managed code, and blocks when it enters native
-- code.
use vmkit_core.Prelude.{ℕ, List, [], ◌∷◌, some, ◌≡◌, ◌≢◌, ◌⊎◌, refl, true, false, arith}
use vmkit_core.Thread.{
  Thread, in_managed, in_managed_to_block, blocked_in_native, set_blocked_exec_status,
}
use vmkit_core.Thread.Adapters.{acknowledge_block_requests}
use vmkit_core.Thread.Blocking.{enter_native_blocked_impl}
use vmkit_core.Handshake.{
  managed, entering, native, checking, dead, free, asked, World, enter_slow, enter_blocked,
  leave_slow, poll, ask, mark, let_go, move, asks, quiet, Reach, start, later, here, next,
}
use vmkit_core.Manager.{System, Event, Round, block_loop, put}
use vmkit_core.Handshake.Pause.{put_world, Pause, begins, goes_on, turn, Pause-block_loop}
use vmkit_core.Handshake.Safety.{Deferred, Calm-blocked, Move-pending}

abbrev thread : Thread
thread = record {
  take_yieldpoint = 0;
  has_collector_context = false;
  exec_status = in_managed;
  ignore_handshakes_and_gc = false;
  is_about_to_terminate = false;
  is_blocking = false;
  is_joinable = false;
  thread_id = 1;
  index_in_manager = 0;
  yieldpoints_enabled_count = 1;
  yieldpoint_request_pending = false;
  at_yieldpoint = false;
  soft_handshake_requested = false;
  active_mutator_context = true;
  is_blocked_for_gc = false;
  should_block_for_gc = false;
  stack_pointer = 0;
  suspend_count = 0;
}

abbrev started : World
started = record { thread = thread; pc = managed; request = free }

abbrev asked_world : World
asked_world = record {
  thread = record thread { should_block_for_gc = true };
  pc = managed;
  request = asked;
}

abbrev pending : World
pending = record {
  thread = record thread {
    should_block_for_gc = true;
    take_yieldpoint = 1;
    exec_status = in_managed_to_block;
  };
  pc = managed;
  request = free;
}

abbrev blocked : World
blocked = record {
  thread = record thread {
    is_blocked_for_gc = true;
    take_yieldpoint = 1;
    exec_status = blocked_in_native;
  };
  pc = native;
  request = free;
}

Reach-pending : Reach pending
unfolding set_blocked_exec_status
Reach-pending =
    later
      (later
        (later
          (start {w = started} (record {
            at_managed = refl;
            in_state = refl;
            unblocked = refl;
            unasked = refl;
            no_request = refl;
            alive = refl;
          }))
          (quiet (asks (ask refl))))
        (quiet (asks (mark refl refl))))
      (quiet (asks (let_go {s = in_managed_to_block} refl (ground arith))))

Reach-blocked : Reach blocked
unfolding enter_native_blocked_impl acknowledge_block_requests
Reach-blocked =
    later (later Reach-pending (quiet (move (enter_slow refl (ground arith)))))
      (quiet (move (enter_blocked refl refl)))

Calm-blocked_example :
    let v = record blocked { pc = checking } in
    (v.thread.is_blocked_for_gc ≡ true) × (v.pc ≢ managed) × (v.pc ≢ entering)
Calm-blocked_example =
    Calm-blocked Reach-blocked refl (next here (move (leave_slow refl (ground arith))))

Move-pending_example :
    let v = record pending { pc = checking } in
    (v.thread.is_blocked_for_gc ≡ true)
    ⊎ ((v.thread.should_block_for_gc ≡ true)
        × ((v.pc ≡ entering) ⊎ (v.pc ≡ checking) ⊎ (v.pc ≡ dead) ⊎ Deferred v))
Move-pending_example = Move-pending Reach-pending refl refl (poll refl)

-- Thread 5 is registered and runs managed code; in the collector's first wait it enters native code,
-- as above.
abbrev one_thread : System
one_thread = record {
  manager = record { threads = some 5 ∷ []; free_thread_indices = []; about_to_terminate = [] };
  store = λ t. thread;
}

abbrev enters_native : Event
enters_native sys = record sys { store = put sys.store 5 blocked.thread }

-- A round in which other threads act only in the waits.
abbrev waits_only : List Event → Round
waits_only waits = record {
  before_listing = λ sys. sys;
  before_test = λ n sys. sys;
  before_request = λ n sys. sys;
  waits = waits;
}

abbrev two_rounds : List Round
two_rounds = waits_only (enters_native ∷ []) ∷ waits_only [] ∷ []

stops : (sys : System) × (block_loop two_rounds one_thread ≡ some (sys, sys))
unfolding block_loop
stops = (_, refl)

abbrev worlds : ℕ → World
worlds t = blocked

-- It then leaves native code, and has to check.
leaves : Pause worlds (put_world worlds 5 (record blocked { pc = checking }))
leaves = goes_on begins (turn 5 (move (leave_slow refl (ground arith))))

Pause-block_loop_example : (checking ≢ managed) × (checking ≢ entering)
unfolding stops
Pause-block_loop_example =
    Pause-block_loop two_rounds one_thread stops.0 stops.0 0 5 stops.1
      (λ n sys h. h, (λ n sys h. h, tt)) Reach-blocked refl refl refl leaves
