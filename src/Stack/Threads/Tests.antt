-- ===== src/Stack/Threads/Tests.antt =====
-- A main thread and another one.
use mathlib.Core.Logic.{◌↔◌}
use vmkit_core.Prelude.{◌+◌, ◌≡◌, ◌≢◌, ◌<◌, ◌≤◌, refl, true, some, arith, if◌then◌else◌, ◌==◌}
use vmkit_core.Stack.{contains}
use vmkit_core.Stack.Threads.{Unix, current_thread_stack_bounds, Windows, windows_stack_bounds}
use vmkit_core.Stack.Threads.Contains.{stack_limit, current_thread_stack_bounds-contains}

abbrev unix : Unix
unix = record {
  attr_getstack = λ handle. (1048576, 16777216);
  pthread_self = 7;
  getpid = 300;
  gettid = 300;
  rlim_cur = 8392704;
  rlim_infinity = 18446744073709551615;
  page_size = 4096;
}

current_thread_stack_bounds-contains_example :
    ((unix.getpid ≢ unix.gettid)
      → (contains (current_thread_stack_bounds unix) 17000000 ≡ true)
        ↔ ((1048576 < 17000000) × (17000000 ≤ 1048576 + 16777216)))
    × (unix.getpid ≡ unix.gettid
        → (contains (current_thread_stack_bounds unix) 17000000 ≡ true) ↔ (
            (1048576 + 16777216 + 4096 < 17000000 + stack_limit unix)
            × (17000000 ≤ 1048576 + 16777216)))
current_thread_stack_bounds-contains_example =
    current_thread_stack_bounds-contains unix 17000000 (omega arith) (omega arith) (omega arith)
      (omega arith)

main_bounds : current_thread_stack_bounds unix ≡ record { origin = 17825792; bound = 9437184 }
unfolding current_thread_stack_bounds
main_bounds = refl

thread_bounds :
    current_thread_stack_bounds (record unix { gettid = 301 })
    ≡ record { origin = 17825792; bound = 1048576 }
unfolding current_thread_stack_bounds
thread_bounds = refl

-- A reserved part of eight pages, a guard page and two committed pages, from 65536.
abbrev windows : Windows
windows = record {
  virtual_query = λ p.
      if p == 65536
      then record {
        base_address = 65536;
        allocation_base = 65536;
        region_size = 32768;
        state = 8192;
        protect = 0;
      }
      else if p == 98304
      then record {
        base_address = 98304;
        allocation_base = 65536;
        region_size = 4096;
        state = 4096;
        protect = 260;
      }
      else record {
        base_address = 102400;
        allocation_base = 65536;
        region_size = 8192;
        state = 4096;
        protect = 4;
      };
  mem_reserve = 8192;
  page_guard = 256;
}

windows_bounds :
    windows_stack_bounds windows 104000 ≡ some (record { origin = 110592; bound = 69632 })
unfolding windows_stack_bounds
windows_bounds = refl
