-- ===== src/Header/Digits.antt =====
-- An implementation of the bit fields of `easy_bitfield`, digit by digit, which satisfies the laws
-- that the object model relies on.
use native.Mathlib.Nat.{pow-suc}
use Prim.Native.Nat.{bit_or}
use vmkit_core.Prelude.{
  ℕ, zero, suc, ◌+◌, ◌*◌, ◌/◌, ◌%◌, ◌^◌, ◌≤◌, ◌<◌, ◌≡◌, ◌⊎◌, inl, inr, refl, arith, ap, ◌∙◌,
}
use vmkit_core.Prelude.Bits.{bit_or_digit}
use vmkit_core.Header.{BitFields, BitFieldLaws}

unfoldable pub low : ℕ → ℕ → ℕ
low zero w = 0
low (suc n) w = w % 2 + 2 * low n (w / 2)

pub splice : ℕ → ℕ → ℕ → ℕ
splice zero w v = w
splice (suc n) w v = v % 2 + 2 * splice n (w / 2) (v / 2)

unfoldable pub decode : ℕ → ℕ → ℕ → ℕ
unfolding low
decode zero n w = low n w
decode (suc s) n w = decode s n (w / 2)

pub update : ℕ → ℕ → ℕ → ℕ → ℕ
unfolding splice
update zero n w v = splice n w v
update (suc s) n w v = w % 2 + 2 * update s n (w / 2) v

half : (a t : ℕ) → (a % 2 + 2 * t) / 2 ≡ t
half a t = omega arith

low-splice : (n w v : ℕ) → v < 2 ^ n → low n (splice n w v) ≡ v
unfolding low splice
low-splice zero w v h = omega arith
low-splice (suc n) w v h =
    rw (half v (splice n (w / 2) (v / 2)))
      (omega (arith, low-splice n (w / 2) (v / 2) (omega (arith, pow-suc 2 n))))

pub decode-update : (s n w v : ℕ) → v < 2 ^ n → decode s n (update s n w v) ≡ v
unfolding decode update
decode-update zero n w v h = low-splice n w v h
decode-update (suc s) n w v h = rw (half w (update s n (w / 2) v)) (decode-update s n (w / 2) v h)

low-update : (n s k w v : ℕ) → n ≤ s → low n (update s k w v) ≡ low n w
unfolding low update
low-update zero s k w v h = refl
low-update (suc n) zero k w v h = absurd (omega arith)
low-update (suc n) (suc s) k w v h =
    rw (half w (update s k (w / 2) v)) (omega (arith, low-update n s k (w / 2) v (omega arith)))

decode-splice : (s n k w v : ℕ) → k ≤ s → decode s n (splice k w v) ≡ decode s n w
unfolding decode splice
decode-splice s n zero w v h = refl
decode-splice zero n (suc k) w v h = absurd (omega arith)
decode-splice (suc s) n (suc k) w v h =
    rw (half v (splice k (w / 2) (v / 2))) (decode-splice s n k (w / 2) (v / 2) (omega arith))

update-nothing : (shift width w v : ℕ) → shift + width ≤ 0 → update shift width w v ≡ w
unfolding update
update-nothing zero zero w v h = refl
update-nothing zero (suc width) w v h = absurd (omega arith)
update-nothing (suc shift) width w v h = absurd (omega arith)

decode-update_apart :
    (s n shift width w v : ℕ)
    → (s + n ≤ shift) ⊎ (shift + width ≤ s)
    → decode s n (update shift width w v) ≡ decode s n w
unfolding decode update
decode-update_apart zero n shift width w v h = elim h [
  | inl a ↦ low-update n shift width w v (omega arith)
  | inr a ↦ ap (λ (u : ℕ). low n u) (update-nothing shift width w v (omega arith))
]
decode-update_apart (suc s) n zero width w v h = elim h [
  | inl a ↦ absurd (omega arith)
  | inr a ↦ decode-splice (suc s) n width w v (omega arith)
]
decode-update_apart (suc s) n (suc shift) width w v h =
    rw (half w (update shift width (w / 2) v))
      (decode-update_apart s n shift width (w / 2) v (ground arith))

splice-lt : (n m w v : ℕ) → n ≤ m → w < 2 ^ m → splice n w v < 2 ^ m
unfolding splice
splice-lt zero m w v h l = l
splice-lt (suc n) zero w v h l = absurd (omega arith)
splice-lt (suc n) (suc m) w v h l =
    omega
      (arith, pow-suc 2 m, splice-lt n m (w / 2) (v / 2) (omega arith) (omega (arith, pow-suc 2 m)))

pub update-lt : (s n m w v : ℕ) → s + n ≤ m → w < 2 ^ m → update s n w v < 2 ^ m
unfolding update
update-lt zero n m w v h l = splice-lt n m w v (omega arith) l
update-lt (suc s) n zero w v h l = absurd (omega arith)
update-lt (suc s) n (suc m) w v h l =
    omega (arith, pow-suc 2 m, update-lt s n m (w / 2) v (omega arith) (omega (arith, pow-suc 2 m)))

abbrev pub digits : BitFields
digits = record { decode = decode; update = update }

pub digits-BitFieldLaws : BitFieldLaws digits
digits-BitFieldLaws = record {
  decode-update = λ s n w v h l. decode-update s n w v l;
  decode-update_apart = λ s n t k w v h a. decode-update_apart s n t k w v a;
  update-lt = λ s n w v h l. update-lt s n 64 w v h l;
}

-- The digits of `|`.
low-bit_or : (n x y : ℕ) → low n (bit_or x y) ≡ bit_or (low n x) (low n y)
unfolding low
low-bit_or zero x y = refl
low-bit_or (suc n) x y =
    let half-x : (x % 2 + 2 * low n (x / 2)) / 2 ≡ low n (x / 2) = half x (low n (x / 2)) in
    let half-y : (y % 2 + 2 * low n (y / 2)) / 2 ≡ low n (y / 2) = half y (low n (y / 2)) in
    ground (
      arith,
      bit_or_digit x y,
      bit_or_digit (x % 2 + 2 * low n (x / 2)) (y % 2 + 2 * low n (y / 2)),
      half-x,
      half-y,
      low-bit_or n (x / 2) (y / 2),
    )

bit_or-half : (x y : ℕ) → bit_or x y / 2 ≡ bit_or (x / 2) (y / 2)
bit_or-half x y = omega (arith, bit_or_digit x y)

pub decode-bit_or : (s n x y : ℕ) → decode s n (bit_or x y) ≡ bit_or (decode s n x) (decode s n y)
unfolding decode
decode-bit_or zero n x y = low-bit_or n x y
decode-bit_or (suc s) n x y = rw (bit_or-half x y) (decode-bit_or s n (x / 2) (y / 2))

decode-zero : (s n : ℕ) → decode s n 0 ≡ 0
unfolding decode low
decode-zero zero zero = refl
decode-zero zero (suc n) = omega (arith, decode-zero 0 n)
decode-zero (suc s) n = decode-zero s n

-- `encode`: a word in which the other digits are 0.
abbrev pub encode : ℕ → ℕ → ℕ → ℕ
encode s n v = update s n 0 v

pub decode-encode_apart :
    (s n shift width v : ℕ)
    → (s + n ≤ shift) ⊎ (shift + width ≤ s)
    → decode s n (encode shift width v) ≡ 0
decode-encode_apart s n shift width v h =
    decode-update_apart s n shift width 0 v h ∙ decode-zero s n

low-low : (n k w : ℕ) → n ≤ k → low n (low k w) ≡ low n w
unfolding low
low-low zero k w h = refl
low-low (suc n) zero w h = absurd (omega arith)
low-low (suc n) (suc k) w h =
    rw (half w (low k (w / 2))) (omega (arith, low-low n k (w / 2) (omega arith)))

-- The low digits of a word hold its fields that lie in them.
pub decode-low : (s n k w : ℕ) → s + n ≤ k → decode s n (decode 0 k w) ≡ decode s n w
unfolding decode low
decode-low zero n k w h = low-low n k w (omega arith)
decode-low (suc s) n zero w h = absurd (omega arith)
decode-low (suc s) n (suc k) w h =
    rw (half w (low k (w / 2))) (decode-low s n k (w / 2) (omega arith))
