-- ===== src/Bdwgc/Descriptor.antt =====
-- `GC_make_descriptor` and `gc_get_bit` of bdwgc_shim.rs. A bitmap is the function from the index of
-- a `usize` to its value.
use native.Mathlib.Decide.{ℕ_discrete}
use vmkit_core.Prelude.{
  ℕ, zero, suc, ◌+◌, ◌-◌, ◌/◌, ◌%◌, ◌^◌, ◌≤◌, ◌<◌, ◌≡◌, ◌⊎◌, refl, inl, inr, Bool, true, false,
  if◌then◌else◌, ◌==◌, ltb, arith, Bool-cases, subst, ◌∙◌,
}

abbrev pub Bitmap : Type 0
Bitmap = ℕ → ℕ

-- `size_of::<usize>()`, 8, where the number of bits of a `usize` is meant.
pub gc_get_bit : Bitmap → ℕ → Bool
gc_get_bit bm i = bm (i / 8) / 2 ^ (i % 8) % 2 == 1

-- BITMAP_BITS
abbrev pub bitmap_bits : ℕ
bitmap_bits = 64 - 2

-- The first loop, from `last_set_bit + 1`, to which it gives `last_set_bit + 1` again: 0 if no bit
-- is set.
pub last_set : Bitmap → ℕ → ℕ
unfolding gc_get_bit
last_set bm zero = 0
last_set bm (suc n) = if gc_get_bit bm n then suc n else last_set bm n

-- The second loop, from `i` on with `left` rounds to go, gives its last `i`.
pub leading_bits : Bitmap → ℕ → ℕ → ℕ
unfolding gc_get_bit
leading_bits bm zero i = i
leading_bits bm (suc left) i =
    let rest = leading_bits bm left (i + 1) in if gc_get_bit bm i then rest else i

-- What follows the loops, from `last_set_bit + 1` and `i`. The third loop computes a descriptor that is not used. GC_DS_LENGTH is 0.
descriptor_from : ℕ → ℕ → ℕ
descriptor_from count i =
    if i == count - 1 then count else (if ltb (count - 1) bitmap_bits then 0 else count)

pub gc_make_descriptor : Bitmap → ℕ → ℕ
unfolding last_set leading_bits descriptor_from
gc_make_descriptor bm len =
    let count = last_set bm len in
    if count == 0 then 0 else descriptor_from count (leading_bits bm (count - 1) 0)

-- `n` is one more than the index of the last bit that is set below `len`, or 0 if none is set.
pub record IsLastSet (bm : Bitmap) (len n : ℕ) : Type 0 where
  pub inside : n ≤ len
  pub is_set : (i : ℕ) → n ≡ suc i → gc_get_bit bm i ≡ true
  pub beyond : (i : ℕ) → n ≤ i → i < len → gc_get_bit bm i ≡ false

abbrev pub AllSet : Bitmap → ℕ → Type 0
AllSet bm n = (i : ℕ) → i < n → gc_get_bit bm i ≡ true

last_set-IsLastSet : (bm : Bitmap) (len : ℕ) → IsLastSet bm len (last_set bm len)
unfolding last_set
last_set-IsLastSet bm zero = record {
  inside = omega arith;
  is_set = λ i e. absurd (omega arith);
  beyond = λ i h g. absurd (omega arith);
}
last_set-IsLastSet bm (suc n) = elim (Bool-cases (gc_get_bit bm n)) [
  | inl b ↦ record {
    inside = ground (arith, b);
    is_set = λ i e. ground (arith, b);
    beyond = λ i h g. ground (arith, b);
  }
  | inr b ↦
      let w = last_set-IsLastSet bm n in
      record {
        inside = ground (arith, b, w.inside);
        is_set = λ i e. w.is_set i (ground (arith, b));
        beyond = λ i h g. elim (ℕ_discrete n i) [
          | yes e ↦ subst (λ k. gc_get_bit bm k ≡ false) e b
          | no ne ↦ w.beyond i (ground (arith, b)) (omega (arith, ne))
        ];
      }
]

-- The second loop reaches its end exactly if all bits on its way are set; otherwise it stops at one
-- that is not.
leading_bits-cases :
    (bm : Bitmap) (left i : ℕ)
    → ((leading_bits bm left i ≡ i + left)
        × ((j : ℕ) → i ≤ j → j < i + left → gc_get_bit bm j ≡ true))
      ⊎ ((leading_bits bm left i < i + left)
          × (i ≤ leading_bits bm left i)
          × (gc_get_bit bm (leading_bits bm left i) ≡ false))
unfolding leading_bits
leading_bits-cases bm zero i = inl (omega arith, λ j h g. absurd (omega arith))
leading_bits-cases bm (suc left) i = elim (Bool-cases (gc_get_bit bm i)) [
  | inr b ↦ inr (rw b (omega arith), rw b (omega arith), rw b b)
  | inl b ↦ elim (leading_bits-cases bm left (i + 1)) [
    | inr r ↦ inr (rw b (omega (arith, r.0)), rw b (omega (arith, r.1)), rw b r.2)
    | inl r ↦ inl (
      rw b (omega (arith, r.0)),
      λ j h g. elim (ℕ_discrete i j) [
        | yes e ↦ subst (λ k. gc_get_bit bm k ≡ true) e b
        | no ne ↦ r.1 j (omega (arith, ne)) (omega arith)
      ],
    )
  ]
]

make-stopped :
    (bm : Bitmap) (len n : ℕ)
    → last_set bm len ≡ suc n
    → leading_bits bm n 0 < n
    → gc_make_descriptor bm len ≡ (if ltb n 62 then 0 else suc n)
unfolding gc_make_descriptor
make-stopped bm len n e h =
    let z : suc n - 1 ≡ n = omega arith in
    let t : (suc n == 0) ≡ false = ground arith in
    let q : (leading_bits bm n 0 == n) ≡ false = test (leading_bits bm n 0) h in
    rw (gc_make_descriptor, e, t, z, q) refl
  where
    test : (i : ℕ) → i < n → (i == n) ≡ false
    test i g = ground arith

-- For every bitmap and length, with `n` one more than the index of the last bit set: the
-- descriptor is `n`, if all bits below `n` are set or `n` is above 62; but for a bitmap with a hole
-- and its last bit below 62 it is 0, as if the object had no pointers.
pub gc_make_descriptor_lem :
    (bm : Bitmap) (len : ℕ)
    → (n : ℕ) × IsLastSet bm len n
      × (((gc_make_descriptor bm len ≡ n) × (AllSet bm n ⊎ (62 < n)))
          ⊎ ((gc_make_descriptor bm len ≡ 0)
              × (n ≤ 62)
              × (i : ℕ) × (i < n)
              × (gc_get_bit bm i ≡ false)))
unfolding gc_make_descriptor
gc_make_descriptor_lem bm len =
    let n = last_set bm len in let w = last_set-IsLastSet bm len in (n, w, by_count n w refl)
  where
    by_count :
        (n : ℕ)
        → IsLastSet bm len n
        → last_set bm len ≡ n
        → ((gc_make_descriptor bm len ≡ n) × (AllSet bm n ⊎ (62 < n)))
          ⊎ ((gc_make_descriptor bm len ≡ 0)
              × (n ≤ 62)
              × (i : ℕ) × (i < n)
              × (gc_get_bit bm i ≡ false))
    by_count zero w e = inl (ground (arith, e), inl (λ i h. absurd (omega arith)))
    by_count (suc n) w e =
        let s = w.is_set n refl in
        elim (leading_bits-cases bm n 0) [
          | inl r ↦ inl (
            ground (arith, e, r.0),
            inl (λ i h. elim (ℕ_discrete n i) [
              | yes q ↦ subst (λ k. gc_get_bit bm k ≡ true) q s
              | no nq ↦ r.1 i (omega arith) (omega (arith, nq))
            ]),
          )
          | inr r ↦ elim (Bool-cases (ltb n 62)) [
            | inl b ↦ inr (
              make-stopped bm len n e (omega (arith, r.0)) ∙ rw b refl,
              ground (arith, b),
              leading_bits bm n 0,
              omega (arith, r.0),
              r.2,
            )
            | inr b ↦
                inl (
                  make-stopped bm len n e (omega (arith, r.0)) ∙ rw b refl,
                  inr (ground (arith, b)),
                )
          ]
        ]
