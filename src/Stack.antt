-- ===== src/Stack.antt =====
-- vmkit/src/mm/stack_bounds.rs: the bounds of a thread's stack, and the limit up to which it may
-- grow (downwards). `none` is a failed assertion; the checks of debug builds are left out, and so
-- are the calls of the operating system that find the bounds.
pub mod Limits
pub mod Threads
use Prim.Native.Nat.{min}
use vmkit_core.Prelude.{
  ℕ, ◌+◌, ◌-◌, Bool, true, false, ◌&&◌, ◌||◌, not, if◌then◌else◌, Option, none, some, ◌==◌, leb,
  ltb,
}
use vmkit_core.Prelude.Words.{wrap, wrapping_sub}

pub record StackBounds : Type 0 where
  pub origin : ℕ
  pub bound : ℕ

abbrev pub empty_bounds : StackBounds
empty_bounds = record { origin = 0; bound = 0 }

pub is_empty : StackBounds → Bool
is_empty s = s.origin == 0

unfoldable pub contains : StackBounds → ℕ → Bool
unfolding is_empty
contains s p = if is_empty s then false else leb p s.origin && ltb s.bound p

unfoldable pub size : StackBounds → ℕ
size s = wrapping_sub s.origin s.bound

unfoldable pub recursion_limit : StackBounds → ℕ → ℕ
recursion_limit s min_reserved_zone = wrap (s.bound + min_reserved_zone)

pub recursion_limit_with_params : StackBounds → ℕ → ℕ → ℕ → ℕ
recursion_limit_with_params s start_of_user_stack max_user_stack reserved_zone_size =
    let reserved = min reserved_zone_size max_user_stack in
    let max_with_reserved = max_user_stack - reserved in
    let end_of_stack = wrap (s.bound + reserved) in
    if ltb start_of_user_stack end_of_stack
    then end_of_stack
    else (let available = start_of_user_stack - end_of_stack in
        wrapping_sub start_of_user_stack
          (if ltb available max_with_reserved then available else max_with_reserved))

pub with_soft_origin : StackBounds → ℕ → Option StackBounds
unfolding contains
with_soft_origin s origin =
    if contains s origin then some (record { origin = origin; bound = s.bound }) else none

unfoldable pub is_growing_downwards : StackBounds → Option Bool
is_growing_downwards s =
    if not (s.origin == 0) && not (s.bound == 0) then some (leb s.bound s.origin) else none
