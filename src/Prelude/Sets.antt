-- ===== src/Prelude/Sets.antt =====
-- Hash sets, as lists without repetitions, by the equality of their elements.
use mathlib.Core.Path.{◌≡◌}
use mathlib.Core.Logic.{inl, inr}
use mathlib.Core.Bool.{Bool, true, false, not, ◌&&◌, ◌||◌}
use mathlib.Core.List.{List, [], ◌∷◌}
use native.Mathlib.Omega.{arith}
use vmkit_core.Prelude.Tests.{Bool-cases, if◌then◌else◌}

-- A test of equality that is right.
pub record Decides {ℓ} {A : Type ℓ} (same : A → A → Bool) : Type ℓ where
  pub equal : (x y : A) → same x y ≡ true → x ≡ y
  pub reflexive : (x : A) → same x x ≡ true

module _ {ℓ} {A : Type ℓ} (same : A → A → Bool) where
  abbrev pub member : List A → A → Bool
  member [] x = false
  member (y ∷ ys) x = same x y || member ys x

  -- The flag says whether the element is new.
  unfoldable pub insert : List A → A → Bool × List A
  insert xs x = if member xs x then (false, xs) else (true, x ∷ xs)

  unfoldable pub remove : List A → A → List A
  remove [] x = []
  remove (y ∷ ys) x = if same y x then remove ys x else y ∷ remove ys x

module _ {ℓ} {A : Type ℓ} (same : A → A → Bool) (decides : Decides same) where
  pub member-insert :
      (xs : List A) (x y : A) → member same ((insert same xs x).1) y ≡ same y x || member same xs y
  unfolding insert
  member-insert xs x y = elim (Bool-cases (member same xs x)) [
    | inr b ↦ ground (arith, b)
    | inl b ↦ elim (Bool-cases (same y x)) [
      | inr n ↦ ground (arith, b, n)
      | inl e ↦ let q = decides.equal y x e in ground (arith, b, e, q)
    ]
  ]

  pub member-remove :
      (xs : List A) (x y : A)
      → member same (remove same xs x) y ≡ not (same y x) && member same xs y
  unfolding remove
  member-remove [] x y = elim (Bool-cases (same y x)) [
    | inl b ↦ ground (arith, b)
    | inr b ↦ ground (arith, b)
  ]
  member-remove (z ∷ zs) x y = elim (Bool-cases (same z x)) [
    | inr n ↦ elim (Bool-cases (same y z)) [
      | inr k ↦ ground (arith, n, k, member-remove zs x y)
      | inl k ↦ let q = decides.equal y z k in ground (arith, n, k, q, member-remove zs x y)
    ]
    | inl e ↦
        let q = decides.equal z x e in
        elim (Bool-cases (same y x)) [
          | inl b ↦ ground (arith, e, b, member-remove zs x y)
          | inr b ↦
              let nz : same y z ≡ false = rw q b in ground (arith, e, b, nz, member-remove zs x y)
        ]
  ]
