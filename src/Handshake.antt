-- ===== src/Handshake.antt =====
-- vmkit/src/threading.rs: one mutator thread, the threads that ask it to block, and the
-- interleavings of their steps. A step is one access without the monitor, or what a thread does
-- under the monitor up to where it releases it or another thread can see the state; a request
-- (`block_unchecked` of another thread) keeps the monitor through three steps, between which the
-- mutator may do its compare-exchanges, which need no monitor. The adapters are those of BDWGC. What
-- managed code does to its own yieldpoints otherwise, such as to enable them, is left out.
pub mod Invariant
pub mod Safety
pub mod Pause
mod Tests
use vmkit_core.Prelude.{ℕ, ◌≡◌, ◌≢◌, Bool, true, false}
use vmkit_core.Thread.{
  Thread, ThreadState, in_managed, in_native, blocked_in_native, set_exec_status,
  set_blocked_exec_status, yieldpoints_enabled,
}
use vmkit_core.Thread.Adapters.{
  gc_block_adapter, gc_adapters, acknowledge_block_requests, is_blocked,
}
use vmkit_core.Thread.Blocking.{enter_native_blocked_impl, unblock}

-- Where the mutator stands.
pub data Pc : Type 0 where
  managed : Pc  -- runs managed code
  entering : Pc  -- `enter_native` saw another state than `InManaged`, and is still to lock
  native : Pc  -- runs native code
  checking : Pc  -- is about to lock the monitor in `check_block_no_save_context`
  waiting : Pc  -- waits on the monitor in `check_block_no_save_context`
  dead : Pc  -- after `add_about_to_terminate`

-- Where a requester stands; in all but `free` it holds the monitor.
pub data Request : Type 0 where
  free : Request
  asked : Request  -- after `request_block`
  marked : ThreadState → Request  -- after `set_blocked_exec_status`, with its result

pub record World : Type 0 where
  pub thread : Thread
  pub pc : Pc
  pub request : Request

-- The thread as the critical section of `check_block_no_save_context` leaves it.
abbrev pub acknowledged : Thread → Thread
acknowledged t = (acknowledge_block_requests gc_adapters (record t { is_blocking = true })).1

abbrev pub released : Thread → Thread
released t = record (set_exec_status t in_managed) { is_blocking = false }

-- A step of the mutator. Those that lock its monitor need a requester that is `free`.
pub data Move (w : World) : World → Type 0 where
  -- `enter_native`: the compare-exchange succeeds
  enter_fast :
      w.pc ≡ managed
      → w.thread.exec_status ≡ in_managed
      → Move w (record w { thread = set_exec_status w.thread in_native; pc = native })
  -- `enter_native`: the load shows another state
  enter_slow :
      w.pc ≡ managed → w.thread.exec_status ≢ in_managed → Move w (record w { pc = entering })
  -- `enter_native_blocked_impl`
  enter_blocked :
      w.pc ≡ entering
      → w.request ≡ free
      → Move w (record w { thread = enter_native_blocked_impl gc_adapters w.thread; pc = native })
  -- `attempt_leave_native_no_block`
  leave_fast :
      w.pc ≡ native
      → w.thread.exec_status ≡ in_native
      → Move w (record w { thread = set_exec_status w.thread in_managed; pc = managed })
  leave_slow :
      w.pc ≡ native → w.thread.exec_status ≢ in_native → Move w (record w { pc = checking })
  -- `check_block` from managed code
  poll : w.pc ≡ managed → Move w (record w { pc = checking })
  -- `yieldpoint`, up to `check_block`
  take :
      w.pc ≡ managed
      → w.request ≡ free
      → yieldpoints_enabled w.thread ≡ true
      → w.thread.take_yieldpoint ≢ 0
      → Move w (record w {
        thread = record w.thread { take_yieldpoint = 0; at_yieldpoint = true };
        pc = checking;
      })
  -- `yieldpoint`, which is deferred while yieldpoints are disabled
  defer :
      w.pc ≡ managed
      → yieldpoints_enabled w.thread ≡ false
      → Move w (record w {
        thread = record w.thread {
          yieldpoint_request_pending = true;
          take_yieldpoint = 0;
          at_yieldpoint = false;
        };
      })
  -- `yieldpoint`, which finds under the lock that none is to be taken
  skip :
      w.pc ≡ managed
      → w.request ≡ free
      → yieldpoints_enabled w.thread ≡ true
      → w.thread.take_yieldpoint ≡ 0
      → Move w (record w { thread = record w.thread { at_yieldpoint = false } })
  -- `block_unchecked` of itself
  block_itself :
      w.pc ≡ managed
      → w.request ≡ free
      → Move w (record w { thread = record w.thread { should_block_for_gc = true }; pc = checking })
  -- a round of the loop that has to wait
  wait :
      (w.pc ≡ checking)
      → w.request ≡ free
      → is_blocked gc_adapters (acknowledged w.thread) ≡ true
      → Move w (record w { thread = acknowledged w.thread; pc = waiting })
  -- the last round of the loop
  pass :
      w.pc ≡ checking
      → w.request ≡ free
      → is_blocked gc_adapters (acknowledged w.thread) ≡ false
      → Move w (record w { thread = released (acknowledged w.thread); pc = managed })
  -- a wait returns with the monitor, for one more round
  wake : w.pc ≡ waiting → Move w (record w { pc = checking })
  -- `add_about_to_terminate`
  die :
      w.pc ≡ managed
      → w.request ≡ free
      → Move w (record w {
        thread = record w.thread { is_about_to_terminate = true; active_mutator_context = false };
        pc = dead;
      })

-- A step of a thread that asks for a block.
pub data Ask (w : World) : World → Type 0 where
  ask :
      w.request ≡ free
      → Ask w
          (record w { thread = record w.thread { should_block_for_gc = true }; request = asked })
  -- the mutator is about to terminate
  give_up :
      w.request ≡ asked
      → w.thread.is_about_to_terminate ≡ true
      → Ask w (record w { request = free })
  mark :
      w.request ≡ asked
      → w.thread.is_about_to_terminate ≡ false
      → Ask w (record w {
        thread = (set_blocked_exec_status (record w.thread { take_yieldpoint = 1 })).1;
        request = marked (set_blocked_exec_status w.thread).0;
      })
  -- `A::clear_block_request(self); A::set_blocked(self, true)` for a thread in native code
  block_native :
      w.request ≡ marked blocked_in_native
      → Ask w (record w {
        thread = record w.thread { should_block_for_gc = false; is_blocked_for_gc = true };
        request = free;
      })
  -- any other result: the request returns, or starts to wait, and releases the monitor
  let_go :
      {s : ThreadState}
      → w.request ≡ marked s
      → s ≢ blocked_in_native
      → Ask w (record w { request = free })

-- The steps without an `unblock`, and all steps.
pub data Quiet (w : World) : World → Type 0 where
  move : {v : World} → Move w v → Quiet w v
  asks : {v : World} → Ask w v → Quiet w v

pub data Step (w : World) : World → Type 0 where
  quiet : {v : World} → Quiet w v → Step w v
  unblocks : w.request ≡ free → Step w (record w { thread = unblock gc_block_adapter w.thread })

-- A thread that has just been started, with no request.
pub record IsStarted (w : World) : Type 0 where
  pub at_managed : w.pc ≡ managed
  pub in_state : w.thread.exec_status ≡ in_managed
  pub unblocked : w.thread.is_blocked_for_gc ≡ false
  pub unasked : w.thread.should_block_for_gc ≡ false
  pub no_request : w.request ≡ free
  pub alive : w.thread.is_about_to_terminate ≡ false

pub data Reach : World → Type 0 where
  start : {w : World} → IsStarted w → Reach w
  later : {w v : World} → Reach w → Step w v → Reach v

-- A history without an `unblock`.
pub data Calm (w : World) : World → Type 0 where
  here : Calm w w
  next : {v u : World} → Calm w v → Quiet v u → Calm w u
