-- ===== src/Thread/Handler/Tests.antt =====
-- A semaphore that counts, and a thread with a stack from 8192 down to 4096.
use vmkit_core.Prelude.{ℕ, zero, suc, ◌^◌, ◌≡◌, refl, true, false, [], ◌∷◌, Option, none, some}
use vmkit_core.Heap.{Mmtk, Mutator, flush_tlab, immix, by_tlab}
use vmkit_core.Stack.{StackBounds, contains}
use vmkit_core.Tlab.{take, reset}
use vmkit_core.Tlab.Multiples.{multiple_from}
use vmkit_core.Thread.{in_managed}
use vmkit_core.Thread.Adapters.{gc_adapters}
use vmkit_core.Thread.Handler.{
  Semaphore, SemaphoreLaws, Target, suspend_target, suspend_target_loop, resume_target,
  signal_handler_suspend_resume,
}
use vmkit_core.Thread.Handler.Suspended.{IsSuspended, waiting, resume_target-suspend_target}

take_one : ℕ → Option ℕ
take_one zero = none
take_one (suc n) = some n

abbrev counting : Semaphore ℕ
counting = record { post = suc; wait = take_one }

counting-SemaphoreLaws : SemaphoreLaws counting
unfolding take_one
counting-SemaphoreLaws = record { wait-post = λ s. refl }

abbrev mmtk : Mmtk
mmtk = record {
  raw_align_up = multiple_from;
  alloc = λ s size align offset t. (4096, t);
  alloc_slow = λ s size align offset t. (4096, t);
  post_alloc = λ object size t. t;
  selector = immix;
  vo_bit_base = 2 ^ 40;
  max_non_los_default_alloc_bytes = 8192;
  alloc_fastpath = by_tlab;
  vm = record { alignment_value = 0; max_alignment = 32; min_alignment = 8 };
}

abbrev mutator : Mutator
mutator = record {
  mem = λ a. 0;
  tlab = record { cursor = 4096; limit = 8192 };
  bump = record { cursor = 0; limit = 0 };
}

abbrev flushed : Mutator
flushed = record mutator {
  tlab = record { cursor = 0; limit = 0 };
  bump = record { cursor = 4096; limit = 8192 };
}

abbrev bounds : StackBounds
bounds = record { origin = 8192; bound = 4096 }

-- The collector has asked it to block; the semaphore counts 3.
abbrev target : Target ℕ ℕ
target = record {
  thread = record {
    take_yieldpoint = 0;
    has_collector_context = false;
    exec_status = in_managed;
    ignore_handshakes_and_gc = false;
    is_about_to_terminate = false;
    is_blocking = false;
    is_joinable = false;
    thread_id = 1;
    index_in_manager = 0;
    yieldpoints_enabled_count = 1;
    yieldpoint_request_pending = false;
    at_yieldpoint = false;
    soft_handshake_requested = false;
    active_mutator_context = true;
    is_blocked_for_gc = false;
    should_block_for_gc = true;
    stack_pointer = 0;
    suspend_count = 0;
  };
  mutator = mutator;
  platform_registers = none;
  semaphore = 3;
}

buffer_flushed : flush_tlab mmtk mutator ≡ some flushed
unfolding flush_tlab take reset
buffer_flushed = refl

on_the_stack : contains bounds 6000 ≡ true
unfolding contains
on_the_stack = refl

beside_the_stack : contains bounds 100 ≡ false
unfolding contains
beside_the_stack = refl

resume_target-suspend_target_example :
    (w' : Target ℕ ℕ) × (w'' : Target ℕ ℕ) × (suspend_target counting mmtk gc_adapters bounds false
        (some (100, 1) ∷ some (6000, 2) ∷ [])
        target
      ≡ some (true, w'))
    × IsSuspended false 6000 2 target w'
    × (w'.thread.suspend_count ≡ 1)
    × (resume_target counting mmtk gc_adapters bounds 6100 3 (waiting false w') ≡ some w'')
    × (w''.semaphore ≡ 3)
    × (w''.thread.stack_pointer ≡ 0)
    × (w''.thread.suspend_count ≡ 0)
resume_target-suspend_target_example =
    resume_target-suspend_target counting counting-SemaphoreLaws mmtk bounds false ((100, 1) ∷ [])
      6000 2 6100 3 target flushed (beside_the_stack, tt) on_the_stack refl buffer_flushed

-- When the handler is slow, the request is not acknowledged when the suspension returns.
unacknowledged :
    (w : Target ℕ ℕ) × (suspend_target counting mmtk gc_adapters bounds false
        (some (6000, 2) ∷ [])
        target
      ≡ some (true, w))
    × (w.thread.is_blocked_for_gc ≡ false)
unfolding suspend_target suspend_target_loop signal_handler_suspend_resume flush_tlab take reset
    contains take_one
unacknowledged = (_, refl, refl)
