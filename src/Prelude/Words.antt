-- ===== src/Prelude/Words.antt =====
-- 64-bit words: `usize` and the two's complement pattern of an `isize`.
use Prim.Native.Nat.{ℕ, ◌-◌, ◌+◌, ◌%◌, ◌^◌}

abbrev pub word_mod : ℕ
word_mod = 2 ^ 64

-- Wrapping to 64 bits.
abbrev pub wrap : ℕ → ℕ
wrap n = n % word_mod

-- `-x` and `a.wrapping_sub(b)` on patterns below 2^64.
abbrev pub wrapping_neg : ℕ → ℕ
wrapping_neg x = (word_mod - x) % word_mod

abbrev pub wrapping_sub : ℕ → ℕ → ℕ
wrapping_sub a b = (a + word_mod - b) % word_mod
