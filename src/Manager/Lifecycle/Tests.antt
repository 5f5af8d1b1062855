-- ===== src/Manager/Lifecycle/Tests.antt =====
-- A process without threads, and a mutator that is thread 1.
use vmkit_core.Prelude.{[], Bool, ◌≡◌, refl, true, false, some, none, arith}
use vmkit_core.Heap.{no_fast_path}
use vmkit_core.Thread.{Thread, ThreadState, for_mutator, new_unchecked}
use vmkit_core.Manager.{System, put, add_thread, new_manager, register, process_about_to_terminate}
use vmkit_core.Thread.Adapters.{gc_adapters}
use vmkit_core.Thread.Parked.{parked_scope}
use vmkit_core.Manager.Slots.{IsWellFormed, IsNew}
use vmkit_core.Manager.Lifecycle.{
  Plan, Os, Native, Process, Body, AllocatorSelector, attach, startoff, register_mutator_manual,
  set_native, set_thread, set_tid, init_current_thread, set_stack_bounds, configure, enrol,
  bind_mutator, set_handle,
}
use vmkit_core.Bdwgc.Threads.{
  gc_register_my_thread, gc_unregister_my_thread, gc_unregister_my_thread-gc_register_my_thread,
}
use vmkit_core.Manager.Lifecycle.Attached.{HasBegun, attach-HasBegun}
use vmkit_core.Manager.Lifecycle.Ended.{IsRunning, HasEnded, startoff-HasEnded}

abbrev immix_plan : Plan
immix_plan = record {
  max_non_los_default_alloc_bytes = 8192;
  barrier = 0;
  selector = AllocatorSelector.immix 0;
  collectors_spawned = false;
}

abbrev linux : Os
linux = record {
  gettid = 100;
  pthread_self = 7;
  stack_bounds = (4096, 8192);
  passage = record { adapters = gc_adapters; sp = 64; waits = []; meanwhile = λ t. t };
}

abbrev fresh : Native
fresh = record {
  tid = 0;
  stack_bounds = none;
  max_non_los_default_alloc_bytes = 0;
  barrier = 0;
  alloc_fastpath = no_fast_path;
  mutator = false;
  platform_handle = 0;
}

-- As `new_unchecked` makes it.
abbrev made : (ignores active : Bool) → Thread
made ignores active = record {
  take_yieldpoint = 0;
  has_collector_context = false;
  exec_status = ThreadState.new;
  ignore_handshakes_and_gc = ignores;
  is_about_to_terminate = false;
  is_blocking = false;
  is_joinable = false;
  thread_id = 1;
  index_in_manager = 0;
  yieldpoints_enabled_count = 0;
  yieldpoint_request_pending = false;
  at_yieldpoint = false;
  soft_handshake_requested = false;
  active_mutator_context = active;
  is_blocked_for_gc = false;
  should_block_for_gc = false;
  stack_pointer = 0;
  suspend_count = 0;
}

abbrev empty_process : Thread → Process
empty_process u = record {
  system = record { manager = new_manager; store = λ t. u };
  natives = λ t. fresh;
  current_thread = none;
  registered = false;
}

abbrev mutator : Thread
mutator = made false true

abbrev servant : Thread
servant = made true false

empty-IsWellFormed : (u : Thread) → IsWellFormed (empty_process u).system
empty-IsWellFormed u = record {
  slots = λ i t h. ground (arith, h);
  empty = λ k i h. ground (arith, h);
  once = λ k l i h g. ground (arith, h);
}

empty-IsNew : (u : Thread) → IsNew (empty_process u).system 1
empty-IsNew u i h = ground (arith, h)

-- A mutator that was started begins.
abbrev started : Process
started = empty_process (record mutator { exec_status = ThreadState.in_managed })

mutator_begins : (q : Process) × (attach immix_plan linux 1 started ≡ some q)
unfolding attach set_tid init_current_thread set_stack_bounds configure enrol bind_mutator
    set_handle process_about_to_terminate add_thread parked_scope register
mutator_begins = (_, refl)

attach-HasBegun_example : HasBegun immix_plan linux.passage 1 started mutator_begins.0
attach-HasBegun_example =
    attach-HasBegun immix_plan linux 1 started mutator_begins.0
      (empty-IsWellFormed (started.system.store 1)) (empty-IsNew (started.system.store 1))
      mutator_begins.1

-- A closure that returns 3 and changes nothing.
abbrev returns_three : Body
returns_three p = (some 3, p)

begun-IsRunning : IsRunning 1 mutator_begins.0
unfolding mutator_begins set_tid init_current_thread configure bind_mutator set_handle register
begun-IsRunning = record { current = refl; mutator = refl; slot = refl }

startoff-HasEnded_example :
    (ended : Process) × (startoff immix_plan linux returns_three 1 started ≡ some (some 3, ended))
    × HasEnded 1 mutator_begins.0 ended
startoff-HasEnded_example =
    startoff-HasEnded immix_plan linux returns_three 1 started mutator_begins.0 mutator_begins.1
      begun-IsRunning

abbrev configured : Process → Process
configured p = configure immix_plan 1 (init_current_thread 1 (set_tid linux 1 p))

abbrev bound_by_hand : Process → Process
bound_by_hand p = bind_mutator 1 (
    set_native (configured p) 1
      (record ((configured p).natives 1) { stack_bounds = some linux.stack_bounds }))

-- A new thread goes through the scope as it is.
abbrev added : System → System
added sys = let r = register sys 1 in record r { store = put r.store 1 (r.store 1) }

abbrev registered_in : Process → Process
registered_in p =
    set_handle linux 1 (record (bound_by_hand p) { system = added (bound_by_hand p).system })

abbrev registered : Process
registered = registered_in (empty_process mutator)

by_hand : register_mutator_manual immix_plan linux 1 (empty_process mutator) ≡ some registered
unfolding register_mutator_manual set_tid init_current_thread set_stack_bounds configure enrol
    bind_mutator set_handle process_about_to_terminate add_thread parked_scope
by_hand = refl

made_by_for_mutator : for_mutator false 1 ≡ some mutator
unfolding for_mutator new_unchecked
made_by_for_mutator = refl

-- A client's thread, which is made anew.
abbrev client : Process
client = registered_in (set_thread (empty_process servant) 1 mutator)

client_registered : gc_register_my_thread immix_plan linux 1 1 (empty_process servant) ≡ some client
unfolding gc_register_my_thread register_mutator_manual for_mutator new_unchecked set_tid
    init_current_thread set_stack_bounds configure enrol bind_mutator set_handle
    process_about_to_terminate add_thread parked_scope
client_registered = refl

client_unregisters :
    (ended : Process) × (gc_unregister_my_thread client ≡ some ended) × HasEnded 1 client ended
client_unregisters =
    gc_unregister_my_thread-gc_register_my_thread immix_plan linux 1 1 (empty_process servant)
      client (empty-IsWellFormed servant) (empty-IsNew servant) client_registered
