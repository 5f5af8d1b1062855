-- ===== src/Manager/Lifecycle.antt =====
-- vmkit/src/threading.rs: how a thread is made, started, registered and ended. mmtk, the operating
-- system and the code that a thread runs are parameters. Debug assertions are on, and `none` is a
-- panic, the use of a mutator that was never written, or a wait that has not ended. The lock of the
-- thread's monitor, and what mmtk does when a mutator is destroyed, are left out.
pub mod Attached
pub mod Ended
pub mod Main
mod Tests
use vmkit_core.Prelude.{
  ℕ, ◌+◌, Bool, true, false, not, ◌&&◌, ◌||◌, if◌then◌else◌, List, Option, none, some, ◌==◌, ◌>>=◌,
}
use vmkit_core.Heap.{AllocFastPath, by_tlab, by_free_list, no_fast_path}
use vmkit_core.Thread.{
  Thread, ThreadState, new_unchecked, for_mutator, set_exec_status, enable_yieldpoints,
}
use vmkit_core.Manager.{
  System, Passage, put, add_thread, add_main_thread, add_about_to_terminate, is_candidate,
}

-- `AllocatorSelector` of mmtk, as far as the source tells its values apart.
pub data AllocatorSelector : Type 0 where
  bump_pointer immix free_list other_allocator : ℕ → AllocatorSelector

-- The plan of mmtk and its constraints, and whether its collectors run.
pub record Plan : Type 0 where
  pub max_non_los_default_alloc_bytes : ℕ
  pub barrier : ℕ
  pub selector : AllocatorSelector
  pub collectors_spawned : Bool

-- What the operating system says of the running native thread, and how the thread passes through the
-- parked scope of `add_thread`.
pub record Os : Type 0 where
  pub gettid : ℕ
  pub pthread_self : ℕ
  pub stack_bounds : ℕ × ℕ
  pub passage : Passage

-- The fields of `Thread` that the record of that name leaves out; `mutator` says whether
-- `mmtk_mutator` holds one.
pub record Native : Type 0 where
  pub tid : ℕ
  pub stack_bounds : Option (ℕ × ℕ)
  pub max_non_los_default_alloc_bytes : ℕ
  pub barrier : ℕ
  pub alloc_fastpath : AllocFastPath
  pub mutator : Bool
  pub platform_handle : ℕ

-- The threads, and the thread-local variables of the running native thread.
pub record Process : Type 0 where
  pub system : System
  pub natives : ℕ → Native
  pub current_thread : Option ℕ
  pub registered : Bool

abbrev pub set_native : Process → ℕ → Native → Process
set_native p t n = record p { natives = λ u. if u == t then n else p.natives u }

abbrev pub set_thread : Process → ℕ → Thread → Process
set_thread p t u = record p { system = record p.system { store = put p.system.store t u } }

pub init_current_thread : ℕ → Process → Process
init_current_thread t p = record p { current_thread = some t; registered = true }

pub deinit_current_thread : Process → Process
deinit_current_thread p = record p { current_thread = none; registered = false }

-- With the number of the thread.
pub for_concurrent : Bool → ℕ → Option Thread
unfolding new_unchecked
for_concurrent collectors_spawned id = new_unchecked collectors_spawned false false id >>= λ t.
    some (record t { ignore_handshakes_and_gc = true })

pub fast_path : AllocatorSelector → AllocFastPath
fast_path (AllocatorSelector.bump_pointer _) = by_tlab
fast_path (AllocatorSelector.immix _) = by_tlab
fast_path (AllocatorSelector.free_list _) = by_free_list
fast_path (AllocatorSelector.other_allocator _) = no_fast_path

pub set_tid : Os → ℕ → Process → Process
set_tid os t p = set_native p t (record (p.natives t) { tid = os.gettid })

-- The constraints of the plan and the fast path.
pub configure : Plan → ℕ → Process → Process
unfolding fast_path
configure plan t p = set_native p t (record (p.natives t) {
  max_non_los_default_alloc_bytes = plan.max_non_los_default_alloc_bytes;
  barrier = plan.barrier;
  alloc_fastpath = fast_path plan.selector;
})

-- The bounds are set once; a second time is a panic.
pub set_stack_bounds : Os → ℕ → Process → Option Process
set_stack_bounds os t p = elim (p.natives t).stack_bounds [
  | none ↦ some (set_native p t (record (p.natives t) { stack_bounds = some os.stack_bounds }))
  | some _ ↦ none
]

pub bind_mutator : ℕ → Process → Process
unfolding is_candidate enable_yieldpoints
bind_mutator t p =
    if is_candidate (p.system.store t)
    then set_thread (set_native p t (record (p.natives t) { mutator = true })) t
        (enable_yieldpoints (p.system.store t))
    else p

pub set_handle : Os → ℕ → Process → Process
set_handle os t p = set_native p t (record (p.natives t) { platform_handle = os.pthread_self })

-- From the binding of the mutator on.
pub enrol : Os → ℕ → Process → Option Process
unfolding bind_mutator set_handle
enrol os t p =
    let q = bind_mutator t p in
    q.current_thread >>= λ c.
    add_thread os.passage c q.system t >>= λ sys. some (set_handle os t (record q { system = sys }))

-- `startoff`, up to the call of the closure.
pub attach : Plan → Os → ℕ → Process → Option Process
unfolding set_tid init_current_thread set_stack_bounds configure enrol
attach plan os t p = set_stack_bounds os t (init_current_thread t (set_tid os t p)) >>= λ q.
    enrol os t (configure plan t q)

-- `terminate`, with `add_about_to_terminate`.
pub terminate : ℕ → Process → Option Process
unfolding deinit_current_thread
terminate t p = do
  c ← p.current_thread
  if (p.system.store c).thread_id == (p.system.store t).thread_id && (p.natives t).mutator
      then (do
        sys ←
            add_about_to_terminate
              (set_thread p t (record (p.system.store t) { is_joinable = true })).system t
        some (
            deinit_current_thread (
              set_native (record p { system = sys }) t (record (p.natives t) { mutator = false }))))
      else none

-- What a thread runs: its result, which is `none` if it panics, and what happened meanwhile.
abbrev pub Body : Type 0
Body = Process → Option ℕ × Process

pub startoff : Plan → Os → Body → ℕ → Process → Option (Option ℕ × Process)
unfolding attach terminate
startoff plan os f t p = do
  q ← attach plan os t p
  let (result, q') = f q
  ended ← terminate t q'
  some (result, ended)

-- `start`: the thread-local variables are those of a new native thread.
unfoldable pub start : Plan → Os → Body → ℕ → Process → Option (Option ℕ × Process)
unfolding startoff
start plan os f t p =
    startoff plan os f t
      (record (set_thread p t (set_exec_status (p.system.store t) ThreadState.in_managed)) {
        current_thread = none;
        registered = false;
      })

-- `main`, up to `startoff`, for a thread that was made before; `initialize_collection` is that of mmtk.
pub prepare_main : (initialize_collection : Process → Process) → ℕ → Process → Option Process
unfolding init_current_thread
prepare_main initialize_collection t p =
    let q = init_current_thread t p in
    let q' = set_thread q t (set_exec_status (q.system.store t) ThreadState.in_managed) in
    add_main_thread q'.system t >>= λ sys. some (initialize_collection (record q' { system = sys }))

unfoldable pub main :
    Plan → Os → (Process → Process) → Body → ℕ → Process → Option (Option ℕ × Process)
unfolding prepare_main startoff
main plan os initialize_collection f t p =
    prepare_main initialize_collection t p >>= startoff plan os f t

-- For a thread that `for_mutator` has made.
unfoldable pub register_mutator_manual : Plan → Os → ℕ → Process → Option Process
unfolding set_tid init_current_thread configure set_stack_bounds enrol
register_mutator_manual plan os t p =
    set_stack_bounds os t (configure plan t (init_current_thread t (set_tid os t p))) >>= enrol os t

unfoldable pub unregister_mutator_manual : Process → Option Process
unfolding terminate
unregister_mutator_manual p = p.current_thread >>= λ t. terminate t p
