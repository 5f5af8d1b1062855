-- ===== src/Stack/Threads.antt =====
-- vmkit/src/mm/stack_bounds.rs: how the bounds of the current thread are found, from what the
-- operating system says of its stack. `none` is a failed assertion.
pub mod Contains
mod Tests
use vmkit_core.Prelude.{
  ℕ, ◌+◌, ◌*◌, ◌-◌, ◌/◌, ◌%◌, Bool, ◌&&◌, not, if◌then◌else◌, Option, none, some, ◌==◌,
}
use vmkit_core.Prelude.Words.{wrap, wrapping_sub}
use vmkit_core.Stack.{StackBounds}

-- `attr_getstack handle` is what pthread_attr_getstack gives for the attributes of a thread: the
-- lowest address of its stack, and its size. `rlim_cur` is the limit RLIMIT_STACK, and `page_size`
-- the result of sysconf.
pub record Unix : Type 0 where
  pub attr_getstack : ℕ → ℕ × ℕ
  pub pthread_self : ℕ
  pub getpid : ℕ
  pub gettid : ℕ
  pub rlim_cur : ℕ
  pub rlim_infinity : ℕ
  pub page_size : ℕ

module _ (os : Unix) where
  pub new_thread_stack_bounds : ℕ → StackBounds
  new_thread_stack_bounds handle =
      let (bound, stack_size) = os.attr_getstack handle in
      record { origin = wrap (bound + stack_size); bound = bound }

  -- The size of the main thread's stack.
  pub main_stack_size : ℕ
  main_stack_size =
      wrapping_sub (if os.rlim_cur == os.rlim_infinity then 8 * 1024 * 1024 else os.rlim_cur)
        os.page_size

  -- `current_thread_stack_bounds`, whose check is one of debug builds.
  pub current_thread_stack_bounds : StackBounds
  unfolding new_thread_stack_bounds main_stack_size
  current_thread_stack_bounds =
      let ret = new_thread_stack_bounds os.pthread_self in
      if os.getpid == os.gettid
      then record { origin = ret.origin; bound = wrapping_sub ret.origin main_stack_size }
      else ret

-- MEMORY_BASIC_INFORMATION, and its constants for `state` and `protect`.
pub record MemoryInformation : Type 0 where
  pub base_address : ℕ
  pub allocation_base : ℕ
  pub region_size : ℕ
  pub state : ℕ
  pub protect : ℕ

-- VirtualQuery gives the region that an address lies in.
pub record Windows : Type 0 where
  pub virtual_query : ℕ → MemoryInformation
  pub mem_reserve : ℕ
  pub page_guard : ℕ

-- Whether `value & bit != 0`, for a bit that is a power of two.
pub has_bit : ℕ → ℕ → Bool
has_bit value bit = not ((value / bit) % 2 == 0)

-- The function of the same name for Windows; `local` is the address of a local variable.
pub windows_stack_bounds : Windows → ℕ → Option StackBounds
unfolding has_bit
windows_stack_bounds os local =
    let stack_origin = os.virtual_query local in
    let uncommitted_memory = os.virtual_query stack_origin.allocation_base in
    let guard_page =
      os.virtual_query (wrap (uncommitted_memory.base_address + uncommitted_memory.region_size)) in
    if (uncommitted_memory.state == os.mem_reserve) && has_bit guard_page.protect os.page_guard
    then some (record {
      origin = wrap (stack_origin.base_address + stack_origin.region_size);
      bound = wrap (stack_origin.allocation_base + guard_page.region_size);
    })
    else none
