-- ===== src/Bdwgc/Words.antt =====
-- The metadata word of an object of bdwgc_shim.rs: its size in units of eight bytes, its kind, and
-- whether it holds no pointers. `encode` of the crate `easy_bitfield` gives a word with one field,
-- and the words are combined with `|`.
use Prim.Native.Nat.{bit_or}
use vmkit_core.Prelude.{
  ℕ, ◌+◌, ◌*◌, ◌%◌, ◌^◌, ◌≤◌, ◌<◌, ◌≡◌, ◌⊎◌, refl, Bool, if◌then◌else◌, ◌==◌, arith, not,
}
use vmkit_core.Prelude.Words.{wrapping_sub}
use vmkit_core.Header.{BitFields}

pub data ObjectKind : Type 0 where
  composite : ObjectKind
  with_descr : ℕ → ObjectKind  -- a `u8`

unfoldable pub kind_to_bitfield : ObjectKind → ℕ
kind_to_bitfield composite = 0
kind_to_bitfield (with_descr kind) = 2 + kind

-- `value - 2` wraps in a release build, and the cast to `u8` keeps its low byte.
unfoldable pub kind_from_bitfield : ℕ → ObjectKind
kind_from_bitfield value =
    if value == 0 then composite else with_descr (wrapping_sub value 2 % 2 ^ 8)

-- `encode` of a field, by its shift and width, and what the crate documents of it: `decode` reads
-- what was encoded, finds 0 in any other field, treats the digits of a word one by one, and finds
-- in the low digits of a word the fields that lie in them.
pub record Encodes (b : BitFields) (encode : ℕ → ℕ → ℕ → ℕ) : Type 0 where
  pub decode-encode :
      (shift width v : ℕ)
      → shift + width ≤ 64
      → v < 2 ^ width
      → b.decode shift width (encode shift width v) ≡ v
  pub decode-encode_apart :
      (s n shift width v : ℕ)
      → shift + width ≤ 64
      → (s + n ≤ shift) ⊎ (shift + width ≤ s)
      → b.decode s n (encode shift width v) ≡ 0
  pub decode-bit_or :
      (s n x y : ℕ) → b.decode s n (bit_or x y) ≡ bit_or (b.decode s n x) (b.decode s n y)
  pub decode-low :
      (s n width w : ℕ) → s + n ≤ width → b.decode s n (b.decode 0 width w) ≡ b.decode s n w
  pub encode-lt :
      (shift width v : ℕ) → shift + width ≤ 64 → v < 2 ^ width → encode shift width v < 2 ^ 64

-- VTableAddress or ObjectSize, ObjectKindField and IsAtomic: shift and width.
abbrev pub size_shift : ℕ
size_shift = 0

abbrev pub size_width : ℕ
size_width = 37

abbrev pub kind_shift : ℕ
kind_shift = 37

abbrev pub kind_width : ℕ
kind_width = 6

abbrev pub atomic_shift : ℕ
atomic_shift = 43

abbrev pub min_alignment : ℕ
min_alignment = 8

-- The accessors of `BDWGCMetadata`.
module _ (b : BitFields) where
  unfoldable pub object_size : ℕ → ℕ
  object_size meta = b.decode size_shift size_width meta * min_alignment

  unfoldable pub object_kind : ℕ → ObjectKind
  unfolding kind_from_bitfield
  object_kind meta = kind_from_bitfield (b.decode kind_shift kind_width meta)

  unfoldable pub is_atomic : ℕ → Bool
  is_atomic meta = not (b.decode atomic_shift 1 meta == 0)

-- Each kind of a `u8` is read back from its number.
pub kind_from_bitfield-kind_to_bitfield :
    (k : ℕ)
    → k < 2 ^ 8
    → (kind_from_bitfield (kind_to_bitfield (with_descr k)) ≡ with_descr k)
      × (kind_from_bitfield (kind_to_bitfield composite) ≡ composite)
unfolding kind_from_bitfield kind_to_bitfield
kind_from_bitfield-kind_to_bitfield k h =
    let e : wrapping_sub (2 + k) 2 % 2 ^ 8 ≡ k = omega arith in (ground (arith, e), refl)
