-- ===== src/Manager.antt =====
-- vmkit/src/threading.rs: `ThreadManager`, which registers the threads, and which blocks and
-- unblocks all mutators for a collection (`ThreadSuspension::Yieldpoint`). A thread is known by a
-- number, under which a store holds its fields; `none` is a panic of the source, or a wait that
-- has not ended. A vector that is used as a stack has its last element in front.
pub mod Slots
pub mod Process
pub mod Stop
pub mod Signals
pub mod Handshakes
pub mod Lifecycle
mod Tests
use vmkit_core.Prelude.{
  ℕ, zero, suc, ◌+◌, Bool, true, false, not, ◌&&◌, ◌||◌, if◌then◌else◌, List, [], ◌∷◌, ◌++◌, Option,
  none, some, ◌==◌, ltb, leb, ◌>>=◌, length, get_elem?, set,
}
use vmkit_core.Thread.{Thread, ThreadState, same_state, not_running}
use vmkit_core.Thread.Adapters.{BlockAdapter, gc_block_adapter}
use vmkit_core.Thread.Parked.{parked_scope}
use vmkit_core.Thread.Blocking.{Wait, request_block_on, must_wait, unblock}

pub record ThreadManager : Type 0 where
  pub threads : List (Option ℕ)
  pub free_thread_indices : List ℕ
  pub about_to_terminate : List ℕ

pub record System : Type 0 where
  pub manager : ThreadManager
  pub store : ℕ → Thread

abbrev pub put : (ℕ → Thread) → ℕ → Thread → ℕ → Thread
put s t u x = if x == t then u else s x

abbrev pub new_manager : ThreadManager
new_manager = record { threads = []; free_thread_indices = []; about_to_terminate = [] }

-- The index that `free_thread_indices.pop().unwrap_or(threads.len())` gives, and the indices that
-- stay free.
unfoldable next_index : ThreadManager → ℕ × List ℕ
next_index m = elim m.free_thread_indices [ [] ↦ (length m.threads, []) | i ∷ is ↦ (i, is) ]

-- `add_thread`, after its call of `process_about_to_terminate`.
pub register : System → ℕ → System
unfolding next_index
register sys t =
    let m = sys.manager in
    let (idx, free) = next_index m in
    record {
      manager = record m {
        threads =
            if leb (length m.threads) idx
            then m.threads ++ some t ∷ []
            else set m.threads idx (some t);
        free_thread_indices = free;
      };
      store = put sys.store t (record (sys.store t) { index_in_manager = idx });
    }

pub add_main_thread : System → ℕ → Option System
add_main_thread sys t =
    let m = sys.manager in
    if (length m.threads == 0)
      && ((length m.free_thread_indices == 0) && (length m.about_to_terminate == 0))
    then some (record {
      manager = record m { threads = some t ∷ [] };
      store = put sys.store t (record (sys.store t) { index_in_manager = 0 });
    })
    else none

-- The current thread is `t`. The thread-local reference that `deinit_current_thread` drops is not
-- modelled; `push` appends.
pub add_about_to_terminate_current : System → ℕ → Option System
add_about_to_terminate_current sys t = do
  slot ← get_elem? sys.manager.threads (sys.store t).index_in_manager
  u ← slot
  some (record sys {
    manager = record sys.manager { about_to_terminate = sys.manager.about_to_terminate ++ u ∷ [] };
  })

-- `Thread::add_about_to_terminate`, less the calls of mmtk.
pub add_about_to_terminate : System → ℕ → Option System
unfolding add_about_to_terminate_current
add_about_to_terminate sys t =
    add_about_to_terminate_current
      (record sys {
        store =
            put sys.store t (record (sys.store t) {
              is_about_to_terminate = true;
              active_mutator_context = false;
            });
      })
      t

unfoldable drop_last : List ℕ → List ℕ
drop_last [] = []
drop_last (x ∷ []) = []
drop_last (x ∷ y ∷ xs) = x ∷ drop_last (y ∷ xs)

-- `Vec::swap_remove(i)`: the last element takes the place of the one at `i`.
pub swap_remove : List ℕ → ℕ → List ℕ
unfolding drop_last
swap_remove xs i = elim (get_elem? xs (length (drop_last xs))) [
  | none ↦ xs
  | some last ↦ drop_last (set xs i last)
]

-- The `for` loop up to the first terminated thread: `n` rounds from `i` on.
pub find_terminated : System → ℕ → ℕ → Option (Option (ℕ × ℕ))
find_terminated sys zero i = some none
find_terminated sys (suc n) i =
    let rest = find_terminated sys n (i + 1) in
    do
      slot ← get_elem? sys.manager.threads i
      t ← slot
      if same_state (sys.store t).exec_status ThreadState.terminated
          then some (some (i, t))
          else rest

-- What the `for` loop does with it.
pub remove_terminated : System → ℕ → ℕ → Option System
unfolding swap_remove
remove_terminated sys i t =
    let m = sys.manager in
    let index = (sys.store t).index_in_manager in
    if ltb index (length m.threads)
    then some (record sys {
      manager = record {
        threads = set m.threads index none;
        free_thread_indices = index ∷ m.free_thread_indices;
        about_to_terminate = swap_remove m.about_to_terminate i;
      };
    })
    else none

-- Each restart has removed an entry of `about_to_terminate`, so that their number is enough fuel.
pub process_loop : ℕ → System → Option System
unfolding find_terminated remove_terminated
process_loop zero sys = some sys
process_loop (suc fuel) sys = do
  found ← find_terminated sys (length sys.manager.about_to_terminate) 0
  elim found [
    | none ↦ some sys
    | some (i, t) ↦ (do sys' ← remove_terminated sys i t; process_loop fuel sys')
  ]

pub process_about_to_terminate : System → Option System
unfolding process_loop
process_about_to_terminate sys = process_loop (length sys.manager.about_to_terminate) sys

-- How a thread passes through a parked scope: the adapters, its stack pointer on entry, what happens
-- to it in each wait while it leaves, and what other threads do to it in the scope.
pub record Passage : Type 0 where
  pub adapters : List BlockAdapter
  pub sp : ℕ
  pub waits : List Wait
  pub meanwhile : Thread → Thread

-- The current thread is `c`, which passes through a parked scope for the registration. The
-- registration writes the slots and the index of `t`, which the scope and the other threads in it do
-- not.
pub add_thread : Passage → (c : ℕ) → System → ℕ → Option System
unfolding process_about_to_terminate register parked_scope
add_thread p c sys t = do
  sys' ← process_about_to_terminate sys
  let registered = register sys' t
  let index = (registered.store c).index_in_manager
  u ← parked_scope p.adapters p.sp p.waits p.meanwhile (registered.store c)
  some
      (record registered { store = put registered.store c (record u { index_in_manager = index }) })

-- What happens to the system during one wait.
abbrev pub Event : Type 0
Event = System → System

-- `join_all`, with what happens during each wait; `none` while it still waits.
pub join_all : List Event → System → Option System
unfolding process_about_to_terminate
join_all [] sys = if ltb 0 (length sys.manager.threads) then none else some sys
join_all (w ∷ ws) sys =
    if ltb 0 (length sys.manager.threads)
    then (process_about_to_terminate sys >>= λ sys'. join_all ws (w sys'))
    else some sys

-- The threads that take part in handshakes and collections.
unfoldable pub is_candidate : Thread → Bool
is_candidate t = not t.has_collector_context && not t.ignore_handshakes_and_gc

pub candidates : (ℕ → Thread) → List (Option ℕ) → List ℕ
unfolding is_candidate
candidates s [] = []
candidates s (none ∷ ts) = candidates s ts
candidates s (some t ∷ ts) = if is_candidate (s t) then t ∷ candidates s ts else candidates s ts

-- The closure of `retain`: an asynchronous `block_unchecked`, which never waits, for a thread that
-- is not blocked, and whether the thread stays in the list.
pub try_block : (ℕ → Thread) → ℕ → (ℕ → Thread) × Bool
unfolding request_block_on not_running
try_block s t =
    if (s t).is_blocked_for_gc
    then (s, false)
    else (let (state, u) = request_block_on gc_block_adapter (s t) in
        (put s t u, not (not_running state)))

-- What other threads do in a round of the loop of `block_all_mutators_for_gc`, which takes no lock
-- but for moments: before the threads are listed, before each of those that are left of the list is
-- tested (and after the last, with 0 left), before each of them is asked, and in each wait.
pub record Round : Type 0 where
  pub before_listing : Event
  pub before_test : ℕ → Event
  pub before_request : ℕ → Event
  pub waits : List Event

pub retain_running : (before_test : ℕ → Event) → System → List ℕ → System × List ℕ
unfolding try_block
retain_running before_test sys [] = (before_test 0 sys, [])
retain_running before_test sys (t ∷ ts) =
    let sys1 = before_test (length (t ∷ ts)) sys in
    let (s, keep) = try_block sys1.store t in
    let (sys2, rest) = retain_running before_test (record sys1 { store = s }) ts in
    (sys2, if keep then t ∷ rest else rest)

pub wait_for : List Event → ℕ → System → Option System
unfolding must_wait
wait_for [] t sys = if must_wait gc_block_adapter (sys.store t) then none else some sys
wait_for (w ∷ ws) t sys =
    let rest = wait_for ws t (w sys) in
    if must_wait gc_block_adapter (sys.store t) then rest else some sys

-- A synchronous `block_unchecked` of another thread.
pub block_sync : List Event → ℕ → System → Option System
unfolding request_block_on wait_for
block_sync ws t sys =
    let (state, u) = request_block_on gc_block_adapter (sys.store t) in
    let sys' = record sys { store = put sys.store t u } in
    if not (sys.store t).is_about_to_terminate && same_state state ThreadState.in_managed_to_block
    then wait_for ws t sys'
    else some sys'

-- `while let Some(thread) = handshake_threads.pop()`: the last thread comes first.
pub block_each : Round → List ℕ → System → Option System
unfolding block_sync
block_each r [] sys = some sys
block_each r (t ∷ ts) sys = do
  sys' ← block_each r ts sys
  block_sync r.waits t (r.before_request (length (t ∷ ts)) sys')

-- Steps (1) and (2) of a round, from where the threads are listed: the system, and the threads that
-- still run. The lock of the manager is released between the steps.
pub try_block_all : Round → System → System × List ℕ
unfolding candidates retain_running
try_block_all r sys = retain_running r.before_test sys (candidates sys.store sys.manager.threads)

-- The fixpoint loop of `block_all_mutators_for_gc`; `none` while it has not come to its end. The
-- second system is that at the end. The first is that when the threads were listed for the last time,
-- which the code does not keep.
unfoldable pub block_loop : List Round → System → Option (System × System)
unfolding try_block_all block_each
block_loop [] sys = none
block_loop (r ∷ rounds) sys =
    let listed = r.before_listing sys in
    elim (try_block_all r listed).1 [
      | [] ↦ some (listed, (try_block_all r listed).0)
      | t ∷ ts ↦ block_each r (t ∷ ts) (try_block_all r listed).0 >>= block_loop rounds
    ]

pub blocked_threads : (ℕ → Thread) → List (Option ℕ) → List ℕ
blocked_threads s [] = []
blocked_threads s (none ∷ ts) = blocked_threads s ts
blocked_threads s (some t ∷ ts) =
    if (s t).is_blocked_for_gc then t ∷ blocked_threads s ts else blocked_threads s ts

-- The threads that are returned, and the system. Other threads do nothing between the removal of the
-- terminated threads and the reading of those that are blocked.
unfoldable pub block_all_mutators_for_gc : List Round → System → Option (List ℕ × System)
unfolding block_loop process_about_to_terminate blocked_threads
block_all_mutators_for_gc rounds sys = do
  (listed, stopped) ← block_loop rounds sys
  sys' ← process_about_to_terminate stopped
  some (blocked_threads sys'.store sys'.manager.threads, sys')

pub unblock_each : (ℕ → Thread) → List (Option ℕ) → ℕ → Thread
unfolding unblock
unblock_each s [] = s
unblock_each s (none ∷ ts) = unblock_each s ts
unblock_each s (some t ∷ ts) =
    let s' = unblock_each s ts in
    if not (s t).has_collector_context then put s' t (unblock gc_block_adapter (s' t)) else s'

pub unblock_all_mutators_for_gc : System → System
unfolding unblock_each
unblock_all_mutators_for_gc sys = record sys { store = unblock_each sys.store sys.manager.threads }
