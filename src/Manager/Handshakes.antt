-- ===== src/Manager/Handshakes.antt =====
-- vmkit/src/threading.rs: soft handshakes. The visitor of the client is a record of functions, which
-- may set fields of a thread; `left` is `soft_handshake_left`, which no other operation of the
-- program writes, and `queue` is what `handshake_lock` guards.
pub mod Requests
use vmkit_core.Prelude.{
  ℕ, zero, suc, ◌+◌, Bool, true, false, not, ◌&&◌, if◌then◌else◌, List, [], ◌∷◌, ◌++◌, Option, none,
  some, ◌>>=◌, ltb, length,
}
use vmkit_core.Prelude.Words.{wrap}
use vmkit_core.Thread.{Thread, set_blocked_exec_status, is_in_managed}
use vmkit_core.Manager.{System, Event, put, process_about_to_terminate}

pub record Visitor : Type 0 where
  pub include_thread : Thread → Bool
  pub check_and_signal : Thread → Bool × Thread
  pub notify_stuck_in_native : Thread → Thread

-- The threads that `snapshot_handshake_threads` pushes; it returns their number.
pub included : Visitor → (ℕ → Thread) → List (Option ℕ) → List ℕ
included v s [] = []
included v s (none ∷ ts) = included v s ts
included v s (some t ∷ ts) =
    if not (s t).has_collector_context && v.include_thread (s t)
    then t ∷ included v s ts
    else included v s ts

pub snapshot_handshake_threads : Visitor → System → List ℕ → ℕ × List ℕ
unfolding included
snapshot_handshake_threads v sys queue =
    let pushed = included v sys.store sys.manager.threads in (length pushed, queue ++ pushed)

-- What is done to a thread that the visitor wants, under its monitor, and whether the handshake
-- waits for it.
pub request_wanted : Visitor → Thread → Thread × Bool
unfolding set_blocked_exec_status is_in_managed
request_wanted v t =
    let (status, u) = set_blocked_exec_status t in
    if is_in_managed u
    then (record u { soft_handshake_requested = true; take_yieldpoint = 1 }, true)
    else (v.notify_stuck_in_native u, false)

-- The same for any thread of the queue.
pub request_handshake : Visitor → Thread → Thread × Bool
unfolding request_wanted
request_handshake v t =
    let (interested, signalled) = v.check_and_signal t in
    if t.is_about_to_terminate
    then (t, false)
    else (if not interested then (signalled, false) else request_wanted v signalled)

-- `while soft_handshake_left > 0`, with what happens in each wait; `none` while it still waits.
pub wait_for_handshake : List Event → ℕ → System → Option System
wait_for_handshake [] left sys = if ltb 0 left then none else some sys
wait_for_handshake (w ∷ ws) left sys =
    let rest = wait_for_handshake ws left (w sys) in if ltb 0 left then rest else some sys

-- The loop over the threads, with what happens in the waits for each of them.
pub handshake_loop : (ℕ → List Event) → Visitor → ℕ → List ℕ → System → Option (ℕ × System)
unfolding request_handshake wait_for_handshake process_about_to_terminate
handshake_loop waits v left [] sys = some (left, sys)
handshake_loop waits v left (t ∷ ts) sys =
    let (u, wait) = request_handshake v (sys.store t) in
    let left' = if wait then wrap (left + 1) else left in
    wait_for_handshake (waits t) left' (record sys { store = put sys.store t u }) >>= λ sys1.
    process_about_to_terminate sys1 >>= λ sys2. handshake_loop waits v left' ts sys2

-- `drain(..n)`: what is taken, and what stays.
pub drain : ℕ → List ℕ → List ℕ × List ℕ
drain zero xs = ([], xs)
drain (suc n) [] = ([], [])
drain (suc n) (x ∷ xs) = let (taken, left) = drain n xs in (x ∷ taken, left)

-- The counter, the queue and the system afterwards.
pub soft_handshake : (ℕ → List Event) → Visitor → ℕ → List ℕ → System → Option (ℕ × List ℕ × System)
unfolding snapshot_handshake_threads drain handshake_loop
soft_handshake waits v left queue sys = do
  let (num, threads) = snapshot_handshake_threads v sys queue
  let (taken, rest) = drain num threads
  (left', sys') ← handshake_loop waits v left taken sys
  some (left', rest, sys')
