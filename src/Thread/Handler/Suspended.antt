-- ===== src/Thread/Handler/Suspended.antt =====
-- What a suspension by the signal handler leaves, and that a resume ends it.
use vmkit_core.Prelude.{
  ℕ, ◌+◌, ◌≡◌, ◌≢◌, refl, ◌∙◌, inl, inr, Bool, true, false, if◌then◌else◌, Bool-cases, List, [],
  ◌∷◌, ◌++◌, map, Option, some, arith,
}
use vmkit_core.Prelude.Words.{wrap}
use vmkit_core.Heap.{Mmtk, Mutator, flush_tlab}
use vmkit_core.Stack.{StackBounds, contains}
use vmkit_core.Tlab.{take, reset}
use vmkit_core.Thread.Adapters.{gc_adapters, acknowledge_block_requests}
use vmkit_core.Thread.Handler.{
  Semaphore, SemaphoreLaws, Target, signal_handler_suspend_resume, enter_sigsuspend, leave_handler,
  suspend_target_loop, suspend_target, resume_target,
}

abbrev pub IsEmptied : Mutator → Type 0
IsEmptied u = (u.tlab.cursor ≡ 0) × (u.tlab.limit ≡ 0)

flush_tlab-IsEmptied : (mmtk : Mmtk) (t u : Mutator) → flush_tlab mmtk t ≡ some u → IsEmptied u
unfolding flush_tlab take reset
flush_tlab-IsEmptied mmtk t u e = ground (arith, e)

flush_tlab-again : (mmtk : Mmtk) (u : Mutator) → IsEmptied u → flush_tlab mmtk u ≡ some u
unfolding flush_tlab take reset
flush_tlab-again mmtk u h = ground (arith, h)

contains-nonzero : (bounds : StackBounds) (sp : ℕ) → contains bounds sp ≡ true → sp ≢ 0
unfolding contains
contains-nonzero bounds sp h = ground (arith, h)

-- The target when its handler waits, where the suspension has returned with `w`.
abbrev pub waiting : {S R : Type 0} → Bool → Target S R → Target S R
waiting early w = if early then w else enter_sigsuspend gc_adapters w

-- What the last attempt of a suspension leaves, in a target that was `w`; the last field holds when
-- the handler waits.
pub record IsSuspended {S R : Type 0} (early : Bool) (sp : ℕ) (registers : R) (w w' : Target S R)
    : Type 0 where
  pub semaphore : w'.semaphore ≡ w.semaphore
  pub stack_pointer : w'.thread.stack_pointer ≡ sp
  pub saved : w'.platform_registers ≡ some registers
  pub buffer : IsEmptied w'.mutator
  pub blocked :
      w.thread.should_block_for_gc ≡ true → (waiting early w').thread.is_blocked_for_gc ≡ true

module _ {S R : Type 0} (semaphore : Semaphore S) (laws : SemaphoreLaws semaphore) (mmtk : Mmtk)
    (bounds : StackBounds) where
  -- The handler runs at each of the stack pointers outside of the stack of the thread.
  abbrev pub AllOutside : List (ℕ × R) → Type 0
  AllOutside [] = Unit {0}
  AllOutside ((sp, registers) ∷ attempts) = (contains bounds sp ≡ false) × AllOutside attempts

  abbrev pub attempts_of : List (ℕ × R) → ℕ → R → List (Option (ℕ × R))
  attempts_of skipped sp registers = map some skipped ++ some (sp, registers) ∷ []

  -- What the handler does on its way to `sigsuspend`.
  enter_sigsuspend-same :
      (w : Target S R)
      → let v = enter_sigsuspend gc_adapters w in
        (v.thread.suspend_count ≡ w.thread.suspend_count)
        × (v.thread.stack_pointer ≡ w.thread.stack_pointer)
        × (w.thread.should_block_for_gc ≡ true → v.thread.is_blocked_for_gc ≡ true)
  unfolding enter_sigsuspend acknowledge_block_requests
  enter_sigsuspend-same w = ground arith

  suspend_target_loop-IsSuspended :
      (early : Bool) (skipped : List (ℕ × R)) (sp : ℕ) (registers : R) (w : Target S R)
      (u : Mutator)
      → AllOutside skipped
      → contains bounds sp ≡ true
      → w.thread.suspend_count ≡ 0
      → flush_tlab mmtk w.mutator ≡ some u
      → (w' : Target S R) × (suspend_target_loop semaphore mmtk gc_adapters bounds early
            (attempts_of skipped sp registers)
            w
          ≡ some (true, w'))
        × IsSuspended early sp registers w w'
        × (w'.thread.suspend_count ≡ 0)
  unfolding suspend_target_loop signal_handler_suspend_resume enter_sigsuspend
  suspend_target_loop-IsSuspended early [] sp registers w u outside inside c f =
      let v = record w {
        mutator = u;
        thread = record w.thread { stack_pointer = sp };
        platform_registers = some registers;
      } in
      let same = enter_sigsuspend-same v in
      let post = laws.wait-post w.semaphore in
      let nonzero = contains-nonzero bounds sp inside in
      let buffer = flush_tlab-IsEmptied mmtk w.mutator u f in
      elim (Bool-cases early) [
        | inl b ↦ (
          enter_sigsuspend gc_adapters v,
          ground (arith, b, inside, c, f, post, nonzero),
          record {
            semaphore = refl;
            stack_pointer = same.1;
            saved = refl;
            buffer = buffer;
            blocked = rw b same.2;
          },
          ground (arith, c, same.0),
        )
        | inr b ↦ (
          v,
          ground (arith, b, inside, c, f, post, nonzero),
          record {
            semaphore = refl;
            stack_pointer = refl;
            saved = refl;
            buffer = buffer;
            blocked = rw b same.2;
          },
          c,
        )
      ]
  suspend_target_loop-IsSuspended early ((x, r) ∷ skipped) sp registers w u outside inside c f =
      let w1 = record w { mutator = u; thread = record w.thread { stack_pointer = 0 } } in
      let again = flush_tlab-again mmtk u (flush_tlab-IsEmptied mmtk w.mutator u f) in
      let (w', e, h, k) =
        suspend_target_loop-IsSuspended early skipped sp registers w1 u outside.1 inside c again in
      (
        w',
        ground (arith, outside.0, c, f, laws.wait-post w.semaphore, e),
        record {
          semaphore = h.semaphore;
          stack_pointer = h.stack_pointer;
          saved = h.saved;
          buffer = h.buffer;
          blocked = h.blocked;
        },
        k,
      )

  -- The fields of a suspended target that counts, once its handler waits.
  waiting-same :
      (early : Bool) (w : Target S R)
      → let v = waiting early w in
        (v.thread.suspend_count ≡ w.thread.suspend_count)
        × (v.semaphore ≡ w.semaphore)
        × (v.mutator ≡ w.mutator)
  unfolding enter_sigsuspend
  waiting-same true w = (refl, refl, refl)
  waiting-same false w = ((enter_sigsuspend-same w).0, refl, refl)

  -- The count that `suspend` raises is not read by the handler on its way to `sigsuspend`.
  waiting-blocked :
      (early : Bool) (w : Target S R) (n : ℕ)
      → let v = waiting early (record w { thread = record w.thread { suspend_count = n } }) in
        v.thread.is_blocked_for_gc ≡ (waiting early w).thread.is_blocked_for_gc
  unfolding enter_sigsuspend acknowledge_block_requests
  waiting-blocked true w n = refl
  waiting-blocked false w n = ground arith

  -- A thread that is not suspended and whose buffer can be flushed is suspended at the first attempt
  -- in which the handler runs on the stack of the thread, after any attempts outside of it: `suspend`
  -- returns true with the semaphore as it was, the stack pointer and the registers of this attempt
  -- saved, the buffer empty, and a count of one. A request to block for a collection that was there
  -- before is acknowledged when the handler waits in `sigsuspend`, which may be after the return. A
  -- `resume` then ends the suspension, with the semaphore as it was before it, no stack pointer and a
  -- count of zero.
  pub resume_target-suspend_target :
      (early : Bool) (skipped : List (ℕ × R)) (sp : ℕ) (registers : R) (sp' : ℕ) (registers' : R)
      (w : Target S R) (u : Mutator)
      → AllOutside skipped
      → contains bounds sp ≡ true
      → w.thread.suspend_count ≡ 0
      → flush_tlab mmtk w.mutator ≡ some u
      → (w' : Target S R) × (w'' : Target S R) × (suspend_target semaphore mmtk gc_adapters bounds
            early
            (attempts_of skipped sp registers)
            w
          ≡ some (true, w'))
        × IsSuspended early sp registers w w'
        × (w'.thread.suspend_count ≡ 1)
        × (resume_target semaphore mmtk gc_adapters bounds sp' registers' (waiting early w')
            ≡ some w'')
        × (w''.semaphore ≡ w.semaphore)
        × (w''.thread.stack_pointer ≡ 0)
        × (w''.thread.suspend_count ≡ 0)
  unfolding suspend_target resume_target signal_handler_suspend_resume leave_handler
  resume_target-suspend_target early skipped sp registers sp' registers' w u outside inside c f =
      let (v, e, h, k) =
        suspend_target_loop-IsSuspended early skipped sp registers w u outside inside c f in
      let one : wrap (v.thread.suspend_count + 1) ≡ 1 = omega (arith, k) in
      let w' = record v {
        thread = record v.thread { suspend_count = wrap (v.thread.suspend_count + 1) };
      } in
      let x = waiting early w' in
      let same = waiting-same early w' in
      let flushed : flush_tlab mmtk x.mutator ≡ some v.mutator =
        rw same.2 (flush_tlab-again mmtk v.mutator h.buffer) in
      let counted : x.thread.suspend_count ≡ 1 = same.0 ∙ one in
      let s : x.semaphore ≡ v.semaphore = same.1 in
      (
        w',
        record x {
          thread = record x.thread { suspend_count = 0; stack_pointer = 0 };
          mutator = v.mutator;
          semaphore = v.semaphore;
        },
        ground (arith, c, e),
        record {
          semaphore = h.semaphore;
          stack_pointer = h.stack_pointer;
          saved = h.saved;
          buffer = h.buffer;
          blocked = λ r. waiting-blocked early v (wrap (v.thread.suspend_count + 1)) ∙ h.blocked r;
        },
        one,
        ground (arith, counted, flushed, s, laws.wait-post v.semaphore),
        h.semaphore,
        refl,
        refl,
      )
