-- ===== src/Thread/Handler.antt =====
-- vmkit/src/threading.rs: the signal handler that suspends a thread, and `suspend` and `resume` with
-- it; vmkit/src/sync/semaphore.rs. The semaphore of libc and what mmtk supplies are parameters. The
-- target of the signal is the thread. `none` is a panic, or a wait that has not ended.
pub mod Suspended
mod Tests
use vmkit_core.Prelude.{
  ℕ, ◌+◌, ◌-◌, ◌^◌, ◌≡◌, Bool, true, false, not, if◌then◌else◌, List, [], ◌∷◌, Option, none, some,
  ◌==◌, ◌>>=◌,
}
use vmkit_core.Prelude.Words.{wrap}
use vmkit_core.Heap.{Mmtk, Mutator, flush_tlab}
use vmkit_core.Stack.{StackBounds, contains}
use vmkit_core.Thread.{Thread}
use vmkit_core.Thread.Adapters.{BlockAdapter, acknowledge_block_requests}

-- `Semaphore`: `wait` gives `none` while the count is 0. An error of libc, which is a panic, does not
-- occur.
pub record Semaphore (S : Type 0) : Type 0 where
  pub post : S → S
  pub wait : S → Option S

-- A post can be waited for, and the wait takes it back.
pub record SemaphoreLaws {S : Type 0} (semaphore : Semaphore S) : Type 0 where
  pub wait-post : (s : S) → semaphore.wait (semaphore.post s) ≡ some s

-- The thread with its buffer and its saved registers, and the semaphore
-- GLOBAL_SEMAPHORE_FOR_SUSPEND_RESUME.
pub record Target (S R : Type 0) : Type 0 where
  pub thread : Thread
  pub mutator : Mutator
  pub platform_registers : Option R
  pub semaphore : S

-- The handler from the post of the semaphore to `sigsuspend`.
pub enter_sigsuspend : {S R : Type 0} → List BlockAdapter → Target S R → Target S R
enter_sigsuspend adapters w = record w { thread = (acknowledge_block_requests adapters w.thread).1 }

module _ {S R : Type 0} (semaphore : Semaphore S) (mmtk : Mmtk) (adapters : List BlockAdapter)
    (bounds : StackBounds) where
  -- The handler, at a stack pointer and with the registers of the context; the flag says that it goes
  -- on to `sigsuspend` from the post of the semaphore.
  pub signal_handler_suspend_resume : ℕ → R → Target S R → Option (Bool × Target S R)
  signal_handler_suspend_resume sp registers w = do
    u ← flush_tlab mmtk w.mutator
    let w1 = record w { mutator = u }
    if not (w1.thread.suspend_count == 0)
        then some (false, w1)
        else if not (contains bounds sp)
        then some (
          false,
          record w1 {
            thread = record w1.thread { stack_pointer = 0 };
            semaphore = semaphore.post w1.semaphore;
          },
        )
        else some (
          true,
          record w1 {
            thread = record w1.thread { stack_pointer = sp };
            platform_registers = some registers;
            semaphore = semaphore.post w1.semaphore;
          },
        )

  -- The handler from `sigsuspend` on.
  pub leave_handler : Target S R → Target S R
  leave_handler w = record w {
    thread = record w.thread { stack_pointer = 0 };
    semaphore = semaphore.post w.semaphore;
  }

  -- The loop of `suspend`: each attempt is the stack pointer and the registers at which the handler
  -- runs, or `none` if `pthread_kill` fails. `early` says that the handler has got to `sigsuspend`
  -- before `suspend` sees that the thread is suspended; if not, it gets there at some time after.
  pub suspend_target_loop :
      (early : Bool) → List (Option (ℕ × R)) → Target S R → Option (Bool × Target S R)
  unfolding signal_handler_suspend_resume enter_sigsuspend
  suspend_target_loop early [] w = none
  suspend_target_loop early (none ∷ attempts) w = some (false, w)
  suspend_target_loop early (some (sp, registers) ∷ attempts) w =
      signal_handler_suspend_resume sp registers w >>= λ (waits, w1).
      semaphore.wait w1.semaphore >>= λ s.
      (if w1.thread.stack_pointer == 0
        then suspend_target_loop early attempts (record w1 { semaphore = s })
        else some (
          true,
          if early
              then enter_sigsuspend adapters (record w1 { semaphore = s })
              else record w1 { semaphore = s },
        ))

  pub suspend_target :
      (early : Bool) → List (Option (ℕ × R)) → Target S R → Option (Bool × Target S R)
  unfolding suspend_target_loop
  suspend_target early attempts w = do
    (found, w1) ←
        (if w.thread.suspend_count == 0
          then suspend_target_loop early attempts w
          else some (true, w))
    some (
      found,
      if found
          then record w1 {
            thread = record w1.thread { suspend_count = wrap (w1.thread.suspend_count + 1) };
          }
          else w1,
    )

  -- `resume`, of a thread that has not ended: the signal, which is held back until the first handler
  -- has got to `sigsuspend`, runs the handler a second time, at a stack pointer, before the first one
  -- goes on. The target is as it is when the first handler waits.
  pub resume_target : ℕ → R → Target S R → Option (Target S R)
  unfolding signal_handler_suspend_resume leave_handler
  resume_target sp registers w = do
    w1 ←
        (if w.thread.suspend_count == 1
          then (signal_handler_suspend_resume sp registers w >>= λ (waits, v).
              semaphore.wait (leave_handler v).semaphore >>= λ s.
              some (record (leave_handler v) { semaphore = s }))
          else some w)
    some (record w1 {
      thread = record w1.thread { suspend_count = wrap (w1.thread.suspend_count + (2 ^ 64 - 1)) };
    })
