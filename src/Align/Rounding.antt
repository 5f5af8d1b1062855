-- ===== src/Align/Rounding.antt =====
-- What the rounding functions of vmkit/src/mm/align.rs compute, at every power of two.
use native.Mathlib.Nat.{pow-suc, one-le-pow, mod-eq_of_lt}
use vmkit_core.Prelude.{
  ℕ, zero, suc, ◌+◌, ◌-◌, ◌*◌, ◌/◌, ◌%◌, ◌^◌, ◌≤◌, ◌<◌, ◌≡◌, refl, true, arith, ap,
}
use vmkit_core.Prelude.Bits.{bit_and-low_mask, bit_and-shifted, mod_of_parts}
use native.Mathlib.Decide.{dec_le}
use vmkit_core.Prelude.Words.{word_mod, wrap, wrapping_neg, wrapping_sub}
use vmkit_core.Memory.{Mem}
use vmkit_core.Align.{
  VmAlignment, round_down, round_up, is_aligned, alignment_delta, align_allocation_inner,
  align_allocation_no_fill,
}

-- `2^j * 2^k = 2^(j + k)`.
pub pow-split : (j k n : ℕ) → j + k ≡ n → 2 ^ j * 2 ^ k ≡ 2 ^ n
pow-split zero k n e = let e' : k ≡ n = omega (arith, e) in rw e' (omega arith)
pow-split (suc j) k zero e = absurd (omega arith)
pow-split (suc j) k (suc n) e = omega (
  arith,
  pow-split j k n (omega arith),
  pow-suc 2 j,
  pow-suc 2 n,
  ap (λ (t : ℕ). t * 2 ^ k) (pow-suc 2 j),
)

pub pow-le : (k : ℕ) → k < 64 → (1 ≤ 2 ^ k) × (2 * 2 ^ k ≤ word_mod)
pow-le k h =
    let p = pow-split (63 - k) k 63 (omega arith) in
    let q = one-le-pow (63 - k) 2 (omega arith) in
    let r = one-le-pow k 2 (omega arith) in (r, grind (arith, p, q))

sub_one_mul : (a b : ℕ) → (a - 1) * b ≡ a * b - b
sub_one_mul zero b = ground arith
sub_one_mul (suc a) b = ground arith

-- The pattern of `-align` is the mask that clears the low digits.
wrapping_neg-pow : (k : ℕ) → k < 64 → wrapping_neg (2 ^ k) ≡ (2 ^ (64 - k) - 1) * 2 ^ k
wrapping_neg-pow k h =
    let p = pow-split (64 - k) k 64 (omega arith) in
    let q = one-le-pow (64 - k) 2 (omega arith) in
    let r = pow-le k h in omega (arith, p, q, r, sub_one_mul (2 ^ (64 - k)) (2 ^ k))

-- `round_down` on a quotient and a remainder.
round_down-parts :
    (k q r : ℕ)
    → k < 64
    → q < 2 ^ (64 - k)
    → r < 2 ^ k
    → round_down (q * 2 ^ k + r) (2 ^ k) ≡ q * 2 ^ k
unfolding round_down
round_down-parts k q r hk hq hr =
    rw
      (
        wrapping_neg-pow k hk,
        bit_and-shifted k q r (2 ^ (64 - k) - 1) hr,
        bit_and-low_mask (64 - k) q,
      )
      (rw (mod-eq_of_lt hq))

quotient-lt : (k x : ℕ) → k < 64 → x < word_mod → x / 2 ^ k < 2 ^ (64 - k)
quotient-lt k x hk hx =
    let p = pow-split (64 - k) k 64 (omega arith) in let r = pow-le k hk in grind (arith, p, r)

-- At a power of two `round_down` subtracts the remainder.
pub round_down-eq-sub_mod : (k x : ℕ) → k < 64 → x < word_mod → round_down x (2 ^ k) ≡ x - x % 2 ^ k
round_down-eq-sub_mod k x hk hx =
    let r = pow-le k hk in
    ground (
      arith,
      r,
      round_down-parts k (x / 2 ^ k) (x % 2 ^ k) hk (quotient-lt k x hk hx) (omega (arith, r)),
    )

-- A multiple of the modulus can be dropped from a sum.
add-mod_multiple : (m a b : ℕ) → 0 < m → b % m ≡ 0 → (a + b) % m ≡ a % m
add-mod_multiple m a b hm hb =
    let h = mod_of_parts m (a / m + b / m) (a % m) (omega arith) in ground (arith, h)

-- Every multiple of 2^64 is one of `2^k`.
word_mod-multiple : (k c : ℕ) → k < 64 → (c * word_mod) % 2 ^ k ≡ 0
word_mod-multiple k c hk =
    let h = mod_of_parts (2 ^ k) (c * 2 ^ (64 - k)) 0 ((pow-le k hk).0) in
    let p = pow-split (64 - k) k 64 (omega arith) in ground (arith, h, ap (λ (t : ℕ). c * t) p)

-- The amount `delta` is below the alignment and makes `region + offset` a multiple of it.
pub alignment_delta_lem :
    (k region offset : ℕ)
    → k < 64
    → region < word_mod
    → offset < word_mod
    → (alignment_delta region (2 ^ k) offset < 2 ^ k)
      × ((region + offset + alignment_delta region (2 ^ k) offset) % 2 ^ k ≡ 0)
unfolding alignment_delta
alignment_delta_lem k region offset hk hr ho = ground (
  arith,
  pow-le k hk,
  bit_and-low_mask k t,
  word_mod-multiple k ((t + region + offset) / word_mod) hk,
  mod_of_parts (2 ^ k) (t / 2 ^ k) 0 ((pow-le k hk).0),
  add-mod_multiple (2 ^ k) (region + offset + t % 2 ^ k) (t / 2 ^ k * 2 ^ k) ((pow-le k hk).0),
)
  where
    t : ℕ
    t = wrapping_sub (wrapping_neg offset) region

-- `r` is the least number from `lo` on that is a multiple of `m` once `offset` is added.
pub record IsLeastAligned (m offset lo r : ℕ) : Type 0 where
  pub from : lo ≤ r
  pub near : r < lo + m
  pub multiple : (r + offset) % m ≡ 0
  pub least : (y : ℕ) → lo ≤ y → (y + offset) % m ≡ 0 → r ≤ y

-- Two multiples of `m` less than `m` apart are in order.
multiple-le : (m x y : ℕ) → x % m ≡ 0 → y % m ≡ 0 → x < y + m → x ≤ y
multiple-le m x y hx hy h = elim (dec_le (x / m) (y / m)) [
  | yes p ↦ grind arith
  | no p ↦ let q : y / m + 1 ≤ x / m = omega (arith, p) in absurd (grind (arith, q))
]

-- For an alignment that is a power of two below 2^64, a 64-bit region and offset, and a gap that
-- does not wrap: the address returned lies in the `alignment` bytes from `region` on, is a multiple
-- of the alignment once `offset` is added, no smaller such address exists from `region` on, and
-- memory is untouched.
pub align_allocation_no_fill-IsLeast :
    (vm : VmAlignment) (m : Mem) (k region offset : ℕ)
    → k < 64
    → offset < word_mod
    → region + 2 ^ k ≤ word_mod
    → let r = align_allocation_no_fill vm m region (2 ^ k) offset in
      IsLeastAligned (2 ^ k) offset region r.0 × (r.1 ≡ m)
unfolding align_allocation_no_fill align_allocation_inner
align_allocation_no_fill-IsLeast vm m k region offset hk ho hr =
    let p = pow-le k hk in
    let d = alignment_delta_lem k region offset hk (omega (arith, p)) ho in
    let r = alignment_delta region (2 ^ k) offset in
    let e : (region + r) % word_mod ≡ region + r = omega (arith, d) in
    let f : (region + r + offset) % 2 ^ k ≡ 0 = ground (arith, d) in
    (
      record {
        from = omega (arith, e);
        near = omega (arith, e, d);
        multiple = rw e f;
        least = λ y hy hm. ground (
          arith,
          e,
          multiple-le (2 ^ k) (region + r + offset) (y + offset) f hm (omega (arith, d)),
        );
      },
      refl,
    )

-- For an alignment that is a power of two below 2^64 and a sum that does not wrap, `round_up` is
-- the least number from `x` on that is a multiple of the alignment once `offset` is added.
pub round_up-IsLeast :
    (k x offset : ℕ)
    → k < 64
    → x + 2 ^ k + offset ≤ word_mod
    → IsLeastAligned (2 ^ k) offset x (round_up x (2 ^ k) offset)
unfolding round_up
round_up-IsLeast k x offset hk h =
    let p = pow-le k hk in
    let v = x + 2 ^ k - 1 + offset in
    let q = v / 2 ^ k in
    let e : wrap (x + 2 ^ k + (word_mod - 1) + offset) ≡ v = omega (arith, p) in
    let d = round_down-eq-sub_mod k v hk (omega (arith, p)) in
    let f : round_up x (2 ^ k) offset ≡ v - v % 2 ^ k - offset =
      rw (round_up, e, d) (omega (arith, p)) in
    let g : (v - v % 2 ^ k - offset + offset) % 2 ^ k ≡ 0 =
      ground (arith, p, mod_of_parts (2 ^ k) q 0 (p.0)) in
    record {
      from = omega (arith, f, p);
      near = omega (arith, f, p);
      multiple = rw f g;
      least = λ y hy hm. ground (
        arith,
        f,
        p,
        multiple-le (2 ^ k) (v - v % 2 ^ k - offset + offset) (y + offset) g hm (omega (arith, p)),
      );
    }

-- For a power of two below 2^64 the alignment test compares the remainder with the offset.
pub is_aligned-iff_mod :
    (k x offset : ℕ)
    → k < 64
    → ((is_aligned x (2 ^ k) offset ≡ true) → x % 2 ^ k ≡ offset)
      × ((x % 2 ^ k ≡ offset) → is_aligned x (2 ^ k) offset ≡ true)
unfolding is_aligned
is_aligned-iff_mod k x offset hk = (
  ground (arith, pow-le k hk, bit_and-low_mask k x),
  ground (arith, pow-le k hk, bit_and-low_mask k x),
)
