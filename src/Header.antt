-- ===== src/Header.antt =====
-- vmkit/src/object_model/header.rs: the header word in front of each object. Its low bits hold
-- the VM's metadata and the next two bits the hash state. The crate `easy_bitfield`, which packs
-- the fields, is a parameter.
pub mod Fields
pub mod Digits
use vmkit_core.Prelude.{
  ℕ, zero, suc, ◌+◌, ◌-◌, ◌^◌, ◌≤◌, ◌<◌, ◌≡◌, ◌⊎◌, Bool, if◌then◌else◌, Option, none, some, ◌==◌,
  ◌>>=◌,
}
use vmkit_core.Prelude.Words.{wrapping_sub}
use vmkit_core.Memory.{Mem, load_word, store_word}

-- `BitField<usize, _, SHIFT, WIDTH, false>`: `decode` reads the field of a word, and `update`
-- gives the word with the field replaced (first argument the shift, then the width).
pub record BitFields : Type 0 where
  pub decode : ℕ → ℕ → ℕ → ℕ
  pub update : ℕ → ℕ → ℕ → ℕ → ℕ

-- What the crate documents of fields that lie inside the word.
pub record BitFieldLaws (b : BitFields) : Type 0 where
  pub decode-update :
      (shift width w v : ℕ)
      → shift + width ≤ 64
      → v < 2 ^ width
      → b.decode shift width (b.update shift width w v) ≡ v
  pub decode-update_apart :
      (s n shift width w v : ℕ)
      → shift + width ≤ 64
      → (s + n ≤ shift) ⊎ (shift + width ≤ s)
      → b.decode s n (b.update shift width w v) ≡ b.decode s n w
  pub update-lt :
      (shift width w v : ℕ) → shift + width ≤ 64 → w < 2 ^ 64 → b.update shift width w v < 2 ^ 64

abbrev pub object_ref_offset : ℕ
object_ref_offset = 8

-- OBJECT_HEADER_OFFSET and HASHCODE_OFFSET, counted back from the object.
abbrev pub header_back : ℕ
header_back = object_ref_offset

abbrev pub hashcode_back : ℕ
hashcode_back = object_ref_offset + 8

-- METADATA_BIT_LIMIT, by the feature `address_based_hashing`.
abbrev pub metadata_bit_limit : Bool → ℕ
metadata_bit_limit address_based_hashing = if address_based_hashing then 64 - 2 else 64 - 1

pub data HashState : Type 0 where
  unhashed hashed hashed_and_moved : HashState

-- `none` is the `unreachable!()` of the source.
unfoldable pub from_bitfield : ℕ → Option HashState
from_bitfield zero = some HashState.unhashed
from_bitfield (suc zero) = some HashState.hashed
from_bitfield (suc (suc zero)) = some HashState.hashed_and_moved
from_bitfield (suc (suc (suc _))) = none

pub to_bitfield : HashState → ℕ
to_bitfield HashState.unhashed = 0
to_bitfield HashState.hashed = 1
to_bitfield HashState.hashed_and_moved = 2

-- Header accesses; `none` is a panic. `b` and `abh` stand for the crate and for the feature.
module _ (b : BitFields) (abh : Bool) where
  -- The header of an object, which asserts that the object is not null.
  unfoldable pub header : Mem → ℕ → Option ℕ
  header m obj = if obj == 0 then none else some (load_word m (wrapping_sub obj header_back))

  unfoldable pub hash_state : Mem → ℕ → Option HashState
  unfolding header from_bitfield
  hash_state m obj = do
    w ← header m obj
    if abh then from_bitfield (b.decode (metadata_bit_limit abh) 2 w) else some HashState.unhashed

  unfoldable pub set_hash_state : Mem → ℕ → HashState → Option Mem
  unfolding header to_bitfield
  set_hash_state m obj state = do
    w ← header m obj
    some (
        store_word m (wrapping_sub obj header_back)
          (b.update (metadata_bit_limit abh) 2 w (to_bitfield state)))

  -- The metadata bits, which the VM decodes.
  unfoldable pub metadata : Mem → ℕ → Option ℕ
  unfolding header
  metadata m obj = do w ← header m obj; some (b.decode 0 (metadata_bit_limit abh) w)

  pub set_metadata : Mem → ℕ → ℕ → Option Mem
  unfolding header
  set_metadata m obj bits = do
    w ← header m obj
    some (store_word m (wrapping_sub obj header_back) (b.update 0 (metadata_bit_limit abh) w bits))
