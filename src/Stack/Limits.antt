-- ===== src/Stack/Limits.antt =====
-- Where a stack may grow to.
use Prim.Native.Nat.{min}
use vmkit_core.Prelude.{
  ℕ, ◌+◌, ◌-◌, ◌≤◌, ◌<◌, ◌≡◌, ◌⊎◌, inl, inr, true, false, arith, none, some, Bool-cases,
}
use vmkit_core.Prelude.Words.{word_mod}
use vmkit_core.Stack.{
  StackBounds, contains, is_empty, recursion_limit_with_params, with_soft_origin,
}

-- Where nothing wraps, the limit keeps the reserved zone (or all of the user's stack, if that is
-- smaller) free above the bound; a thread whose stack starts above that zone gets at most the part
-- of its maximal stack that is not reserved, and all of it if it fits.
pub recursion_limit_with_params_lem :
    (s : StackBounds) (start most reserved : ℕ)
    → s.bound + reserved < word_mod
    → start < word_mod
    → let l = recursion_limit_with_params s start most reserved in
      (s.bound + min reserved most ≤ l)
      × (s.bound + min reserved most ≤ start
          → (l ≤ start)
            × (start ≤ l + (most - min reserved most))
            × (s.bound + min reserved most + (most - min reserved most) ≤ start
                → l + (most - min reserved most) ≡ start))
unfolding recursion_limit_with_params
recursion_limit_with_params_lem s start most reserved h g = ground arith

-- A soft origin inside the bounds gives bounds that contain it, and no address that the bounds did
-- not contain; an origin outside them is refused.
pub with_soft_origin-contains :
    (s : StackBounds) (origin : ℕ)
    → ((contains s origin ≡ false) × (with_soft_origin s origin ≡ none))
      ⊎ ((u : StackBounds) × (with_soft_origin s origin ≡ some u)
          × (contains u origin ≡ true)
          × ((p : ℕ) → contains u p ≡ true → contains s p ≡ true)
          × (s.bound ≤ u.origin))
unfolding with_soft_origin contains is_empty
with_soft_origin-contains s origin = elim (Bool-cases (contains s origin)) [
  | inl b ↦ inr (
    record { origin = origin; bound = s.bound },
    ground (arith, b),
    ground (arith, b),
    λ p h. ground (arith, b),
    ground (arith, b),
  )
  | inr b ↦ inl (b, ground (arith, b))
]
