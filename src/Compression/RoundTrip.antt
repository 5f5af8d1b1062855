-- ===== src/Compression/RoundTrip.antt =====
-- Compressed pointers decode to what was encoded.
use native.Mathlib.Nat.{one-le-pow, lt_of_mul-lt-mul_right, mul-sub}
use vmkit_core.Prelude.{
  ℕ, ◌+◌, ◌-◌, ◌*◌, ◌/◌, ◌%◌, ◌^◌, ◌≤◌, ◌<◌, ◌≡◌, ◌≢◌, ◌⊎◌, inl, inr, false, arith, Bool-cases,
  ◌==◌,
}
use vmkit_core.Prelude.Bits.{mod_of_parts}
use vmkit_core.Align.Rounding.{pow-split}
use vmkit_core.Prelude.Words.{word_mod, wrapping_sub}
use vmkit_core.Compression.{CompressedOps, init, encode, decode, decode_raw}

-- The addresses that an encoding can represent: above the base by a multiple of the shift that is
-- positive and fits in 32 bits after it.
pub record IsEncodable (ops : CompressedOps) (v : ℕ) : Type 0 where
  pub above : ops.base < v
  pub aligned : (v - ops.base) % 2 ^ ops.shift ≡ 0
  pub near : v - ops.base < 2 ^ 32 * 2 ^ ops.shift
  pub word : v < word_mod

encode-parts :
    (ops : CompressedOps) (v q : ℕ)
    → ops.base < v
    → v < word_mod
    → v ≡ ops.base + q * 2 ^ ops.shift
    → q < 2 ^ 32
    → 0 < q
    → (encode ops v ≡ q) × (decode ops q ≡ v)
unfolding encode decode decode_raw
encode-parts ops v q a w e lt pos =
    let p = one-le-pow ops.shift 2 (omega arith) in
    let d : wrapping_sub v ops.base ≡ q * 2 ^ ops.shift = omega (arith, e) in
    let f : (q * 2 ^ ops.shift) / 2 ^ ops.shift ≡ q = grind (arith, p) in
    (ground (arith, d, f), ground (arith, e))

-- An address that the encoding can represent is encoded as a number that is not 0, the null
-- pointer, and that decodes to the address; null decodes to null.
pub decode-encode :
    (ops : CompressedOps) (v : ℕ)
    → (v ≡ 0) ⊎ IsEncodable ops v
    → (decode ops (encode ops v) ≡ v) × (v ≢ 0 → encode ops v ≢ 0)
decode-encode ops v h = elim h [
  | inl z ↦ unfold encode decode in (ground (arith, z), λ n. absurd (n z))
  | inr e ↦
      let q = (v - ops.base) / 2 ^ ops.shift in
      let p = one-le-pow ops.shift 2 (omega arith) in
      let d : v - ops.base ≡ q * 2 ^ ops.shift = ground (arith, e, p) in
      let f : 0 < q = grind (arith, d, e.above) in
      let g : q < 2 ^ 32 = lt_of_mul-lt-mul_right (2 ^ ops.shift) (omega (arith, e.near, d)) in
      let r = encode-parts ops v q e.above e.word (omega (arith, d, e.above)) g f in
      (rw r.0 r.1, ground (arith, r.0, f))
]

sub-multiple : (m x y : ℕ) → 0 < m → x % m ≡ 0 → y % m ≡ 0 → (x - y) % m ≡ 0
sub-multiple m x y h hx hy =
    let r = mod_of_parts m (x / m - y / m) 0 h in
    let d : x ≡ m * (x / m) = grind arith in
    let f : y ≡ m * (y / m) = grind arith in
    let e : (x / m - y / m) * m + 0 ≡ x - y = grind (arith, d, f, mul-sub m (x / m) (y / m)) in
    rw e at r

page-multiple : (k : ℕ) → k ≤ 12 → 4096 % 2 ^ k ≡ 0
page-multiple k h =
    let r = mod_of_parts (2 ^ k) (2 ^ (12 - k)) 0 (one-le-pow k 2 (omega arith)) in
    let e : 2 ^ (12 - k) * 2 ^ k + 0 ≡ 4096 =
      omega (arith, pow-split (12 - k) k 12 (omega arith)) in
    rw e at r

-- Without tagged pointers, for an alignment `2^k` of at most a page: each aligned address of a heap
-- that starts aligned and above its first page can be represented, if the heap ends below 4 GB
-- times the alignment, or is at least a page smaller than that.
pub init-IsEncodable :
    (k start end v : ℕ)
    → k ≤ 12
    → 4096 ≤ start
    → start % 2 ^ k ≡ 0
    → (start ≤ v) × (v < end) × (end < word_mod)
    → v % 2 ^ k ≡ 0
    → (end ≤ 2 ^ 32 * 2 ^ k) ⊎ (end - start + 4096 ≤ 2 ^ 32 * 2 ^ k)
    → IsEncodable (init false k start end) v
unfolding init
init-IsEncodable k start end v hk hs ha hv al fits =
    let p = one-le-pow k 2 (omega arith) in
    let m = sub-multiple (2 ^ k) start 4096 p ha (page-multiple k hk) in
    let n = sub-multiple (2 ^ k) v (start - 4096) p al m in
    record {
      above = ground arith;
      aligned = ground (arith, n, al);
      near = ground (arith, p);
      word = omega (arith, hv);
    }

-- A compressed pointer has 32 bits.
pub encode-lt : (ops : CompressedOps) (v : ℕ) → encode ops v < 2 ^ 32
unfolding encode
encode-lt ops v = elim (Bool-cases (v == 0)) [
  | inl b ↦ ground (arith, b)
  | inr b ↦ rw b (omega arith)
]
