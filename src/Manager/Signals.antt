-- ===== src/Manager/Signals.antt =====
-- vmkit/src/threading.rs: the branches of `block_all_mutators_for_gc` and
-- `unblock_all_mutators_for_gc` for `ThreadSuspension::Signal`. For each thread, `attempts` is what
-- the attempts to suspend it give, and `gone` is that it cannot be signalled any more.
pub mod Nested
use vmkit_core.Prelude.{
  ℕ, Bool, true, false, not, ◌&&◌, if◌then◌else◌, List, [], ◌∷◌, Option, none, some, ◌>>=◌,
}
use vmkit_core.Thread.{Thread}
use vmkit_core.Thread.Adapters.{gc_block_adapter}
use vmkit_core.Thread.Blocking.{unblock}
use vmkit_core.Thread.Suspension.{suspend, resume}
use vmkit_core.Manager.{System, put, is_candidate, process_about_to_terminate}

-- The loop over the threads: the threads afterwards, and those that are returned, also where the
-- suspension failed.
unfoldable pub suspend_each :
    (ℕ → List (Bool × ℕ)) → (ℕ → Thread) → List (Option ℕ) → Option ((ℕ → Thread) × List ℕ)
unfolding suspend is_candidate
suspend_each attempts s [] = some (s, [])
suspend_each attempts s (none ∷ ts) = suspend_each attempts s ts
suspend_each attempts s (some t ∷ ts) =
    if is_candidate (s t) && not (s t).is_about_to_terminate
    then (suspend (attempts t) (s t) >>= λ r.
        suspend_each attempts (put s t r.1) ts >>= λ rest. some (rest.0, t ∷ rest.1))
    else suspend_each attempts s ts

unfoldable pub block_all_by_signals : (ℕ → List (Bool × ℕ)) → System → Option (List ℕ × System)
unfolding suspend_each process_about_to_terminate
block_all_by_signals attempts sys = do
  sys1 ← process_about_to_terminate sys
  (s, handshake_threads) ← suspend_each attempts sys1.store sys1.manager.threads
  sys2 ← process_about_to_terminate (record sys1 { store = s })
  some (handshake_threads, sys2)

-- What is done to one thread.
pub resume_one : Bool → Thread → Thread
unfolding resume unblock
resume_one gone t =
    let u = resume gone t in if u.is_blocked_for_gc then unblock gc_block_adapter u else u

pub resume_each : (ℕ → Bool) → (ℕ → Thread) → List (Option ℕ) → ℕ → Thread
unfolding resume_one is_candidate
resume_each gone s [] = s
resume_each gone s (none ∷ ts) = resume_each gone s ts
resume_each gone s (some t ∷ ts) =
    if is_candidate (s t)
    then resume_each gone (put s t (resume_one (gone t) (s t))) ts
    else resume_each gone s ts

unfoldable pub unblock_all_by_signals : (ℕ → Bool) → System → System
unfolding resume_each
unblock_all_by_signals gone sys = record sys {
  store = resume_each gone sys.store sys.manager.threads;
}
