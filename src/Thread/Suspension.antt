-- ===== src/Thread/Suspension.antt =====
-- vmkit/src/threading.rs: suspension of a thread by signals. An attempt to suspend is what
-- `pthread_kill` gives and the stack pointer that the signal handler has left. What else the handler
-- does (it flushes the buffer, saves registers and acknowledges block requests while the thread
-- that suspends goes on) is left out.
use vmkit_core.Prelude.{
  ℕ, ◌+◌, ◌-◌, ◌^◌, ◌<◌, ◌≡◌, ◌≢◌, inl, inr, Bool, true, false, if◌then◌else◌, not, List, [], ◌∷◌,
  Option, none, some, ◌==◌, ◌>>=◌, arith, refl, Option-cases, Bool-cases,
}
use vmkit_core.Prelude.Words.{wrap}
use vmkit_core.Thread.{Thread}

-- The loop of `suspend`: whether the thread was found, and the thread; `none` while attempts fail.
unfoldable pub suspend_loop : List (Bool × ℕ) → Thread → Option (Bool × Thread)
suspend_loop [] t = none
suspend_loop ((found, sp) ∷ attempts) t =
    let rest = suspend_loop attempts (record t { stack_pointer = sp }) in
    if not found
    then some (false, t)
    else (if sp == 0 then rest else some (true, record t { stack_pointer = sp }))

unfoldable pub suspend : List (Bool × ℕ) → Thread → Option (Bool × Thread)
unfolding suspend_loop
suspend attempts t = do
  r ← (if t.suspend_count == 0 then suspend_loop attempts t else some (true, t))
  some (r.0, if r.0 then record r.1 { suspend_count = wrap (r.1.suspend_count + 1) } else r.1)

-- `gone` is that `pthread_kill` gives ESRCH. The handler resets the stack pointer before it ends.
unfoldable pub resume : Bool → Thread → Thread
resume gone t =
    if t.suspend_count == 1
    then (if gone then t else record t { suspend_count = 0; stack_pointer = 0 })
    else record t { suspend_count = wrap (t.suspend_count + (2 ^ 64 - 1)) }

suspend_loop-suspended :
    (attempts : List (Bool × ℕ)) (t u : Thread)
    → suspend_loop attempts t ≡ some (true, u)
    → (u.suspend_count ≡ t.suspend_count) × (u.stack_pointer ≢ 0)
unfolding suspend_loop
suspend_loop-suspended [] t u e = ground arith
suspend_loop-suspended ((found, sp) ∷ attempts) t u e =
    ground (arith, suspend_loop-suspended attempts (record t { stack_pointer = sp }) u)

-- Suspensions nest: a thread that is suspended, fewer than 2^64 - 1 times before, and then resumed,
-- and that has not ended meanwhile, has the count that it had. While it is suspended the count is
-- not 0; and if it was not suspended before, the handler has left a stack pointer that is not 0.
pub resume-suspend :
    (attempts : List (Bool × ℕ)) (t u : Thread)
    → t.suspend_count + 1 < 2 ^ 64
    → suspend attempts t ≡ some (true, u)
    → ((resume false u).suspend_count ≡ t.suspend_count)
      × (u.suspend_count ≢ 0)
      × (t.suspend_count ≡ 0 → u.stack_pointer ≢ 0)
unfolding suspend resume
resume-suspend attempts t u h e = elim (Bool-cases (t.suspend_count == 0)) [
  | inr b ↦ ground (arith, b)
  | inl b ↦ elim (Option-cases (suspend_loop attempts t)) [
    | inl o ↦ ground (arith, b, o)
    | inr ((false, v), o) ↦ ground (arith, b, o)
    | inr ((true, v), o) ↦ ground (arith, b, o, suspend_loop-suspended attempts t v o)
  ]
]

suspend_loop-flags :
    (attempts : List (Bool × ℕ)) (t : Thread) (found : Bool) (u : Thread)
    → suspend_loop attempts t ≡ some (found, u)
    → (u.has_collector_context ≡ t.has_collector_context)
      × (u.ignore_handshakes_and_gc ≡ t.ignore_handshakes_and_gc)
unfolding suspend_loop
suspend_loop-flags [] t found u e = ground arith
suspend_loop-flags ((hit, sp) ∷ attempts) t found u e =
    ground (arith, suspend_loop-flags attempts (record t { stack_pointer = sp }) found u)

-- A suspension does not change what kind of thread it is.
pub suspend-flags :
    (attempts : List (Bool × ℕ)) (t : Thread) (found : Bool) (u : Thread)
    → suspend attempts t ≡ some (found, u)
    → (u.has_collector_context ≡ t.has_collector_context)
      × (u.ignore_handshakes_and_gc ≡ t.ignore_handshakes_and_gc)
unfolding suspend
suspend-flags attempts t found u e = elim (Bool-cases (t.suspend_count == 0)) [
  | inr b ↦ ground (arith, b)
  | inl b ↦ elim (Option-cases (suspend_loop attempts t)) [
    | inl o ↦ ground (arith, b, o)
    | inr ((false, v), o) ↦ ground (arith, b, o, suspend_loop-flags attempts t false v o)
    | inr ((true, v), o) ↦ ground (arith, b, o, suspend_loop-flags attempts t true v o)
  ]
]

-- A thread that is resumed without having been suspended gets the count 2^64 - 1, and the next
-- suspension then succeeds without any attempt and leaves the thread running, with the count 0.
pub suspend-resume_unsuspended :
    (t : Thread) (gone : Bool)
    → t.suspend_count ≡ 0
    → ((resume gone t).suspend_count ≡ 2 ^ 64 - 1)
      × (u : Thread) × ((attempts : List (Bool × ℕ))
          → suspend attempts (resume gone t) ≡ some (true, u))
      × (u.suspend_count ≡ 0)
      × (u.stack_pointer ≡ t.stack_pointer)
unfolding suspend resume
suspend-resume_unsuspended t gone h =
    (ground (arith, h), record t { suspend_count = 0 }, λ attempts. ground (arith, h), refl, refl)
