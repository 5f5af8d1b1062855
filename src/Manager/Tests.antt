-- ===== src/Manager/Tests.antt =====
-- A main thread, a mutator and a collector.
use vmkit_core.Prelude.{
  ℕ, zero, suc, ◌≡◌, ◌≢◌, refl, true, false, [], ◌∷◌, some, none, arith, get_elem?,
}
use vmkit_core.Thread.{Thread, in_managed}
use vmkit_core.Manager.{
  System, Event, Round, Passage, put, register, add_thread, process_about_to_terminate,
  process_loop, block_loop,
}
use vmkit_core.Thread.Adapters.{gc_adapters}
use vmkit_core.Thread.Parked.{parked_scope}
use vmkit_core.Manager.Slots.{IsWellFormed}
use vmkit_core.Manager.Process.{Registered, add_thread-IsWellFormed}
use vmkit_core.Manager.Stop.{Settled, KeepsSettled, block_loop-Settled}
use vmkit_core.Prelude.{ℕ, ◌+◌, ◌-◌, ◌^◌, ◌*◌, ◌/◌, List, Bool, Option, if◌then◌else◌, ◌==◌}
use vmkit_core.Thread.Suspension.{suspend, suspend_loop}
use vmkit_core.Manager.{is_candidate}
use vmkit_core.Manager.Signals.{suspend_each, resume_each}
use vmkit_core.Manager.Signals.Nested.{OnlyAt, resume_each-suspend_each}
use vmkit_core.Manager.Handshakes.{Visitor, included, soft_handshake}
use vmkit_core.Manager.Handshakes.Requests.{Awaited, soft_handshake-never_waits}
use vmkit_core.Heap.{Mmtk, Mutator, by_tlab, immix}
use vmkit_core.Tlab.{empty}

abbrev thread : Thread
thread = record {
  take_yieldpoint = 0;
  has_collector_context = false;
  exec_status = in_managed;
  ignore_handshakes_and_gc = false;
  is_about_to_terminate = false;
  is_blocking = false;
  is_joinable = false;
  thread_id = 1;
  index_in_manager = 0;
  yieldpoints_enabled_count = 1;
  yieldpoint_request_pending = false;
  at_yieldpoint = false;
  soft_handshake_requested = false;
  active_mutator_context = true;
  is_blocked_for_gc = false;
  should_block_for_gc = false;
  stack_pointer = 0;
  suspend_count = 0;
}

-- Thread 5 has registered as the main thread.
abbrev one_thread : System
one_thread = record {
  manager = record { threads = some 5 ∷ []; free_thread_indices = []; about_to_terminate = [] };
  store = λ t. thread;
}

one_thread-IsWellFormed : IsWellFormed one_thread
one_thread-IsWellFormed = record {
  slots = slots;
  empty = λ k i h. ground arith;
  once = λ k l i h g. ground arith;
}
  where
    slots : (i t : ℕ) → get_elem? one_thread.manager.threads i ≡ some (some t) → 0 ≡ i
    slots zero t h = refl
    slots (suc i) t h = ground arith

one_thread-IsNew : (i : ℕ) → get_elem? one_thread.manager.threads i ≢ some (some 6)
one_thread-IsNew zero h = ground arith
one_thread-IsNew (suc i) h = ground arith

-- Thread 5 adds it, from managed code, without interference.
abbrev passage : Passage
passage = record { adapters = gc_adapters; sp = 64; waits = []; meanwhile = λ t. t }

abbrev two_threads : System
two_threads = record (register one_thread 6) {
  store =
      put (register one_thread 6).store 5
        (record ((register one_thread 6).store 5) { stack_pointer = 64 });
}

added : add_thread passage 5 one_thread 6 ≡ some two_threads
unfolding add_thread process_about_to_terminate process_loop parked_scope register
added = refl

add_thread-IsWellFormed_example : Registered 6 1 two_threads
add_thread-IsWellFormed_example =
    add_thread-IsWellFormed passage 5 one_thread two_threads 6 one_thread-IsWellFormed
      one_thread-IsNew added

-- In the only wait of the collector, thread 5 blocks.
abbrev blocks : Event
blocks sys = record sys {
  store =
      put sys.store 5
        (record (sys.store 5) { is_blocked_for_gc = true; should_block_for_gc = false });
}

-- Thread 5 is blocked, and any other is as it was.
abbrev stopped : System
stopped = record one_thread { store = λ t. record thread { is_blocked_for_gc = t == 5 } }

-- A round in which other threads act only in the waits.
abbrev waits_only : List Event → Round
waits_only waits = record {
  before_listing = λ sys. sys;
  before_test = λ n sys. sys;
  before_request = λ n sys. sys;
  waits = waits;
}

abbrev two_rounds : List Round
two_rounds = waits_only (blocks ∷ []) ∷ waits_only [] ∷ []

stops : (s : System) × (block_loop two_rounds one_thread ≡ some (s, s))
unfolding block_loop
stops = (_, refl)

two_rounds-KeepsSettled : KeepsSettled 5 two_rounds
two_rounds-KeepsSettled = (λ n sys h. h, (λ n sys h. h, tt))

block_loop-Settled_example : Settled (stops.0.store 5)
unfolding stops
block_loop-Settled_example =
    block_loop-Settled two_rounds one_thread stops.0 stops.0 0 5 stops.1 refl refl
      two_rounds-KeepsSettled

-- A round in which thread 6 is registered after the threads have been listed.
abbrev registers_late : Round
registers_late = record (waits_only []) {
  before_test = λ n sys. if n == 0 then register sys 6 else sys;
}

-- The loop ends with thread 6 registered, in managed code, and not asked to block.
late :
    (listed sys : System) × (block_loop (registers_late ∷ []) stopped ≡ some (listed, sys))
    × (get_elem? sys.manager.threads 1 ≡ some (some 6))
    × (is_candidate (sys.store 6) ≡ true)
    × ((sys.store 6).exec_status ≡ in_managed)
    × ((sys.store 6).is_blocked_for_gc ≡ false)
unfolding block_loop register is_candidate
late = (_, _, refl, refl, refl, refl, refl)

-- Each thread is found at once, with the stack pointer 64.
abbrev found_at_once : ℕ → List (Bool × ℕ)
found_at_once t = (true, 64) ∷ []

abbrev suspended : Thread
suspended = record thread { suspend_count = 1; stack_pointer = 64 }

found : suspend (found_at_once 5) thread ≡ some (true, suspended)
unfolding suspend suspend_loop
found = refl

abbrev one_slot : List (Option ℕ)
one_slot = some 5 ∷ []

all_suspended :
    (r : (ℕ → Thread) × List ℕ) × (suspend_each found_at_once (λ t. thread) one_slot ≡ some r)
unfolding suspend_each is_candidate suspend suspend_loop
all_suspended = (_, refl)

only_slot : OnlyAt one_slot 0 5
only_slot = (refl, first)
  where
    first : (j : ℕ) → get_elem? one_slot j ≡ some (some 5) → j ≡ 0
    first zero h = refl
    first (suc j) h = ground arith

resume_each-suspend_each_example :
    (all_suspended.0.0 5 ≡ suspended)
    × ((all_suspended.0.0 5).suspend_count ≢ 0)
    × ((resume_each (λ t. false) all_suspended.0.0 one_slot 5).suspend_count ≡ 0)
unfolding is_candidate
resume_each-suspend_each_example =
    resume_each-suspend_each found_at_once (λ t. false) (λ t. thread) all_suspended.0.0 one_slot
      all_suspended.0.1 0 5 suspended all_suspended.1 only_slot refl refl (omega arith) found refl

abbrev mmtk : Mmtk
mmtk = record {
  raw_align_up = λ x align. (x + (align - 1)) / align * align;
  alloc = λ s size align offset t. (1024, t);
  alloc_slow = λ s size align offset t. (1024, t);
  post_alloc = λ object size t. t;
  selector = immix;
  vo_bit_base = 2 ^ 40;
  max_non_los_default_alloc_bytes = 8192;
  alloc_fastpath = by_tlab;
  vm = record { alignment_value = 0; max_alignment = 32; min_alignment = 8 };
}

abbrev mutator : Mutator
mutator = record { mem = λ a. 0; tlab = record { cursor = 4096; limit = 8192 }; bump = empty }

abbrev one_blocked : System
one_blocked = record one_thread { store = λ t. record thread { is_blocked_for_gc = true } }

-- A visitor that wants every thread and sets nothing.
abbrev visitor : Visitor
visitor = record {
  include_thread = λ t. true;
  check_and_signal = λ t. (true, t);
  notify_stuck_in_native = λ t. t;
}

soft_handshake-never_waits_example :
    ((waits waits' : ℕ → List Event) (r : ℕ × List ℕ × System)
      → soft_handshake waits visitor 0 [] one_thread ≡ some r
      → (soft_handshake waits' visitor 0 [] one_thread ≡ some r) × (r.0 ≡ 0))
    × ((waits : ℕ → List Event) (t : ℕ) (ts : List ℕ)
        → included visitor one_thread.store one_thread.manager.threads ≡ t ∷ ts
        → Awaited visitor (one_thread.store t)
        → soft_handshake waits visitor 0 [] one_thread ≡ none)
soft_handshake-never_waits_example = soft_handshake-never_waits visitor one_thread
