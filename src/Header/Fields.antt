-- ===== src/Header/Fields.antt =====
-- How the two fields of a header are read back.
use vmkit_core.Prelude.{ℕ, ◌^◌, ◌<◌, ◌≡◌, inl, inr, refl, true, some, arith}
use vmkit_core.Prelude.Words.{word_mod, wrapping_sub}
use vmkit_core.Memory.{Mem, load_word, load_bytes-store_bytes}
use vmkit_core.Header.{
  BitFields, BitFieldLaws, HashState, unhashed, hashed, hashed_and_moved, from_bitfield,
  to_bitfield, header, hash_state, set_hash_state, metadata, set_metadata,
}

-- Decoding the encoding of a hash state gives it back.
pub from_bitfield-to_bitfield : (s : HashState) → from_bitfield (to_bitfield s) ≡ some s
unfolding from_bitfield to_bitfield
from_bitfield-to_bitfield unhashed = refl
from_bitfield-to_bitfield hashed = refl
from_bitfield-to_bitfield hashed_and_moved = refl

to_bitfield-lt : (s : HashState) → to_bitfield s < 2 ^ 2
unfolding to_bitfield
to_bitfield-lt unhashed = omega arith
to_bitfield-lt hashed = omega arith
to_bitfield-lt hashed_and_moved = omega arith

-- The word that `set_hash_state` writes.
abbrev pub with_state : BitFields → HashState → ℕ → ℕ
with_state b s w = b.update 62 2 w (to_bitfield s)

-- Writing a state gives a word from which it is read back, with the metadata bits kept.
module _ (b : BitFields) (laws : BitFieldLaws b) (s : HashState) (w : ℕ) where
  pub from_bitfield-with_state : from_bitfield (b.decode 62 2 (with_state b s w)) ≡ some s
  from_bitfield-with_state =
      rw (laws.decode-update 62 2 w (to_bitfield s) (omega arith) (to_bitfield-lt s))
        (from_bitfield-to_bitfield s)

  pub metadata-with_state : b.decode 0 62 (with_state b s w) ≡ b.decode 0 62 w
  metadata-with_state =
      laws.decode-update_apart 0 62 62 2 w (to_bitfield s) (omega arith) (inl (omega arith))

  pub with_state-lt : w < word_mod → with_state b s w < word_mod
  with_state-lt h = laws.update-lt 62 2 w (to_bitfield s) (omega arith) h

-- With address-based hashing, for an object that is not null and whose header holds 64 bits: the
-- hash state that is set is the one that is read afterwards, and the metadata of the object stay
-- as they were.
pub hash_state-set_hash_state :
    (b : BitFields) (m m' : Mem) (obj : ℕ) (s : HashState)
    → BitFieldLaws b
    → load_word m (wrapping_sub obj 8) < word_mod
    → set_hash_state b true m obj s ≡ some m'
    → (hash_state b true m' obj ≡ some s) × (metadata b true m' obj ≡ metadata b true m obj)
unfolding set_hash_state hash_state metadata header
hash_state-set_hash_state b m m' obj s laws hw e = ground (
  arith,
  load_bytes-store_bytes 8 m (wrapping_sub obj 8)
      (with_state b s (load_word m (wrapping_sub obj 8)))
      (with_state-lt b laws s (load_word m (wrapping_sub obj 8)) hw),
  from_bitfield-with_state b laws s (load_word m (wrapping_sub obj 8)),
  metadata-with_state b laws s (load_word m (wrapping_sub obj 8)),
)

-- Setting the metadata, where they fit their 62 bits, keeps the hash state.
pub metadata-set_metadata :
    (b : BitFields) (m m' : Mem) (obj bits : ℕ)
    → BitFieldLaws b
    → load_word m (wrapping_sub obj 8) < word_mod
    → bits < 2 ^ 62
    → set_metadata b true m obj bits ≡ some m'
    → (metadata b true m' obj ≡ some bits) × (hash_state b true m' obj ≡ hash_state b true m obj)
unfolding set_metadata hash_state metadata header
metadata-set_metadata b m m' obj bits laws hw fits e = ground (
  arith,
  load_bytes-store_bytes 8 m (wrapping_sub obj 8)
      (b.update 0 62 (load_word m (wrapping_sub obj 8)) bits)
      (laws.update-lt 0 62 (load_word m (wrapping_sub obj 8)) bits (omega arith) hw),
  laws.decode-update 0 62 (load_word m (wrapping_sub obj 8)) bits (omega arith) fits,
  laws.decode-update_apart 62 2 0 62 (load_word m (wrapping_sub obj 8)) bits (omega arith)
      (inr (omega arith)),
)
