-- ===== src/Thread.antt =====
-- vmkit/src/threading.rs: the state of a thread and the operations that read or write single
-- fields of it. Memory orders are not modelled: an atomic access is one step.
pub mod Adapters
pub mod Blocking
pub mod Status
pub mod CheckBlock
pub mod Yieldpoints
pub mod Suspension
pub mod Handler
pub mod Parked
mod Tests
use vmkit_core.Prelude.{
  ℕ, ◌+◌, ◌-◌, ◌%◌, ◌^◌, Bool, true, false, not, ◌&&◌, ◌||◌, if◌then◌else◌, Option, none, some,
  ◌==◌,
}

pub data ThreadState : Type 0 where
  new in_managed in_native in_managed_to_block blocked_in_native terminated : ThreadState

abbrev pub same_state : ThreadState → ThreadState → Bool
same_state ThreadState.new ThreadState.new = true
same_state ThreadState.in_managed ThreadState.in_managed = true
same_state ThreadState.in_native ThreadState.in_native = true
same_state ThreadState.in_managed_to_block ThreadState.in_managed_to_block = true
same_state ThreadState.blocked_in_native ThreadState.blocked_in_native = true
same_state ThreadState.terminated ThreadState.terminated = true
same_state _ _ = false

unfoldable pub not_running : ThreadState → Bool
not_running ThreadState.new = true
not_running ThreadState.terminated = true
not_running _ = false

-- The fields of `Thread` that take part in scheduling. `take_yieldpoint` is the pattern of an
-- `i32`, `yieldpoints_enabled_count` that of an `i8`.
pub record Thread : Type 0 where
  pub take_yieldpoint : ℕ
  pub has_collector_context : Bool
  pub exec_status : ThreadState
  pub ignore_handshakes_and_gc : Bool
  pub is_about_to_terminate : Bool
  pub is_blocking : Bool
  pub is_joinable : Bool
  pub thread_id : ℕ
  pub index_in_manager : ℕ
  pub yieldpoints_enabled_count : ℕ
  pub yieldpoint_request_pending : Bool
  pub at_yieldpoint : Bool
  pub soft_handshake_requested : Bool
  pub active_mutator_context : Bool
  pub is_blocked_for_gc : Bool
  pub should_block_for_gc : Bool
  pub stack_pointer : ℕ
  pub suspend_count : ℕ

-- `id` is what `ID.fetch_add` gives. `none` is a failed assertion.
unfoldable pub new_unchecked :
    (collectors_spawned collector_context is_mutator : Bool) → ℕ → Option Thread
new_unchecked collectors_spawned collector_context is_mutator id =
    if collector_context && (collectors_spawned || is_mutator)
    then none
    else some (record {
      take_yieldpoint = 0;
      has_collector_context = collector_context;
      exec_status = ThreadState.new;
      ignore_handshakes_and_gc = not is_mutator || collector_context;
      is_about_to_terminate = false;
      is_blocking = false;
      is_joinable = false;
      thread_id = id;
      index_in_manager = 0;
      yieldpoints_enabled_count = 0;
      yieldpoint_request_pending = false;
      at_yieldpoint = false;
      soft_handshake_requested = false;
      active_mutator_context = is_mutator;
      is_blocked_for_gc = false;
      should_block_for_gc = false;
      stack_pointer = 0;
      suspend_count = 0;
    })

unfoldable pub for_mutator : Bool → ℕ → Option Thread
unfolding new_unchecked
for_mutator collectors_spawned = new_unchecked collectors_spawned false true

unfoldable pub for_collector : Bool → ℕ → Option Thread
unfolding new_unchecked
for_collector collectors_spawned = new_unchecked collectors_spawned true false

unfoldable pub set_exec_status : Thread → ThreadState → Thread
set_exec_status t status = record t { exec_status = status }

-- The compare-exchange: whether it succeeded, and the thread afterwards.
unfoldable pub attempt_fast_exec_status_transition :
    Thread → ThreadState → ThreadState → Bool × Thread
unfolding set_exec_status
attempt_fast_exec_status_transition t old_state new_state =
    if same_state t.exec_status old_state then (true, set_exec_status t new_state) else (false, t)

unfoldable pub is_in_managed : Thread → Bool
is_in_managed t =
    not t.is_blocking
    && (not t.is_about_to_terminate
        && (same_state t.exec_status ThreadState.in_managed
            || same_state t.exec_status ThreadState.in_managed_to_block))

-- The state that a request leaves behind.
pub blocked_status : ThreadState → ThreadState
blocked_status ThreadState.in_managed = ThreadState.in_managed_to_block
blocked_status ThreadState.in_native = ThreadState.blocked_in_native
blocked_status s = s

-- The compare-exchange of this loop fails only when another thread changes the state in between,
-- and is then retried, so that the round that succeeds is one step.
unfoldable pub set_blocked_exec_status : Thread → ThreadState × Thread
unfolding set_exec_status blocked_status
set_blocked_exec_status t =
    let new_state = blocked_status t.exec_status in (new_state, set_exec_status t new_state)

unfoldable pub yieldpoints_enabled : Thread → Bool
yieldpoints_enabled t = t.yieldpoints_enabled_count == 1

unfoldable pub enable_yieldpoints : Thread → Thread
unfolding yieldpoints_enabled
enable_yieldpoints t =
    let t' = record t { yieldpoints_enabled_count = (t.yieldpoints_enabled_count + 1) % 2 ^ 8 } in
    if yieldpoints_enabled t' && t'.yieldpoint_request_pending
    then record t' { take_yieldpoint = 1; yieldpoint_request_pending = false }
    else t'

pub disable_yieldpoints : Thread → Thread
disable_yieldpoints t = record t {
  yieldpoints_enabled_count = (t.yieldpoints_enabled_count + 2 ^ 8 - 1) % 2 ^ 8;
}
