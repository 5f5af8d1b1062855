-- ===== src/Stack/Threads/Contains.antt =====
-- Which addresses are on a thread's stack.
use mathlib.Core.Logic.{◌↔◌}
use vmkit_core.Prelude.{ℕ, ◌+◌, ◌*◌, ◌≤◌, ◌<◌, ◌≡◌, ◌≢◌, true, arith, some, if◌then◌else◌, ◌==◌}
use vmkit_core.Prelude.Words.{wrap, word_mod}
use vmkit_core.Stack.{StackBounds, contains, is_empty}
use vmkit_core.Stack.Threads.{
  Unix, current_thread_stack_bounds, Windows, has_bit, windows_stack_bounds,
}

-- The bounds as they are where no address wraps.
contains_range :
    (s : StackBounds) (p : ℕ)
    → s.origin ≢ 0
    → (contains s p ≡ true) ↔ ((s.bound < p) × (p ≤ s.origin))
unfolding contains is_empty
contains_range s p h = (λ e. (ground arith, ground arith), λ q. ground (arith, q.0, q.1))

-- The limit in bytes of the main thread's stack.
abbrev pub stack_limit : Unix → ℕ
stack_limit os = if os.rlim_cur == os.rlim_infinity then 8 * 1024 * 1024 else os.rlim_cur

-- Let the system report a stack that is not empty and ends below 2^64, and let the resource limit (8
-- MiB, if there is none) be at least a page and at most the address where this stack ends. The bounds
-- of a thread that is not the main one contain the addresses above the lowest one of that stack, up
-- to its end. The bounds of the main thread end there too, but reach down as far as the limit less a
-- page, whatever size was reported.
pub current_thread_stack_bounds-contains :
    (os : Unix) (p : ℕ)
    → let stack = os.attr_getstack os.pthread_self in
      (0 < stack.1)
      → stack.0 + stack.1 < word_mod
      → os.page_size ≤ stack_limit os
      → stack_limit os ≤ stack.0 + stack.1
      → ((os.getpid ≢ os.gettid)
          → (contains (current_thread_stack_bounds os) p ≡ true)
            ↔ ((stack.0 < p) × (p ≤ stack.0 + stack.1)))
        × (os.getpid ≡ os.gettid
            → (contains (current_thread_stack_bounds os) p ≡ true)
              ↔ ((stack.0 + stack.1 + os.page_size < p + stack_limit os) × (p ≤ stack.0 + stack.1)))
unfolding current_thread_stack_bounds
current_thread_stack_bounds-contains os p h e g l =
    let range = contains_range (current_thread_stack_bounds os) p (λ z. ground arith) in
    (
      λ other. (λ c. ground (arith, range.0 c), λ q. range.1 (ground (arith, q.0, q.1))),
      λ main. (λ c. ground (arith, range.0 c), λ q. range.1 (ground (arith, q.0, q.1))),
    )

-- Let the allocation of a thread's stack on Windows be a reserved part, a guard page and a
-- committed part, in this order upwards and with nothing between them, and let the local variable
-- lie in the committed part. The bounds are found, and contain the addresses that lie above the
-- lowest ones of the allocation, as many as a guard page has, up to its end.
pub windows_stack_bounds-contains :
    (os : Windows) (local base reserved guard committed p : ℕ)
    → os.virtual_query local ≡ record {
      base_address = base + reserved + guard;
      allocation_base = base;
      region_size = committed;
      state = 4096;
      protect = 4;
    }
    → os.virtual_query base ≡ record {
      base_address = base;
      allocation_base = base;
      region_size = reserved;
      state = os.mem_reserve;
      protect = 0;
    }
    → os.virtual_query (base + reserved) ≡ record {
      base_address = base + reserved;
      allocation_base = base;
      region_size = guard;
      state = 4096;
      protect = 4 + os.page_guard;
    }
    → has_bit (4 + os.page_guard) os.page_guard ≡ true
    → 0 < committed
    → base + reserved + guard + committed < word_mod
    → (s : StackBounds) × (windows_stack_bounds os local ≡ some s)
      × ((contains s p ≡ true) ↔ ((base + guard < p) × (p ≤ base + reserved + guard + committed)))
unfolding windows_stack_bounds
windows_stack_bounds-contains os local base reserved guard committed p l u g bit c fits =
    let s : StackBounds = record {
      origin = base + reserved + guard + committed;
      bound = base + guard;
    } in
    let no_wrap : (n : ℕ) → n < word_mod → wrap n ≡ n = λ n h. omega arith in
    let page : wrap (base + reserved) ≡ base + reserved = omega arith in
    (
      s,
      rw (l, u, page, g, bit) (ground (arith, bit, no_wrap (base + guard))),
      contains_range s p (omega arith),
    )
