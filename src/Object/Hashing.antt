-- ===== src/Object/Hashing.antt =====
-- Hash codes across calls and moves, with address-based hashing.
pub mod Again
pub mod Null
use vmkit_core.Prelude.{
  ℕ, ◌+◌, ◌-◌, ◌/◌, ◌^◌, ◌≤◌, ◌<◌, ◌≡◌, ◌≢◌, ◌∙◌, inl, inr, refl, true, false, Option, none, some,
  arith,
}
use vmkit_core.Prelude.Words.{word_mod, wrap, wrapping_sub}
use vmkit_core.Memory.{
  Mem, load_word, store_word, copy, load_bytes, store_bytes, load_bytes-store_bytes,
  load_bytes-store_bytes_apart, load_bytes-copy, store_bytes-outside,
}
use vmkit_core.Header.{
  BitFields, BitFieldLaws, HashState, unhashed, hashed, hashed_and_moved, header, hash_state,
  set_hash_state, metadata, from_bitfield,
}
use vmkit_core.Header.Fields.{
  with_state, from_bitfield-with_state, metadata-with_state, with_state-lt,
}
use vmkit_core.Object.{ObjectVm, hashcode}
use vmkit_core.Object.Move.{to_address, to_object, move_object}

-- A VM with address-based hashing over the documented bit fields, and an object in its memory
-- whose header holds 64 bits.
pub record IsHashed (vm : ObjectVm) (m : Mem) (obj : ℕ) : Type 0 where
  pub hashing : vm.address_based_hashing ≡ true
  pub laws : BitFieldLaws vm.bit_fields
  pub low : 16 ≤ obj
  pub high : obj < word_mod
  pub word : load_word m (obj - 8) < word_mod

-- The state that the header of an object shows.
abbrev pub StateIs : ObjectVm → Mem → ℕ → HashState → Type 0
StateIs vm m obj s = from_bitfield (vm.bit_fields.decode 62 2 (load_word m (obj - 8))) ≡ some s

-- The metadata bits that the header of an object shows.
abbrev pub metadata_of : ObjectVm → Mem → ℕ → ℕ
metadata_of vm m obj = vm.bit_fields.decode 0 62 (load_word m (obj - 8))

module _ (vm : ObjectVm) (m : Mem) (from addr bytes : ℕ) (ok : IsHashed vm m from) where
  abbrev moved_mem : Mem
  moved_mem = store_word (copy m (from - 8) (addr + 8) (bytes - 8)) addr (from / 2 ^ 3)

  -- The header and the hash slot after the copy and the store of the hash.
  moved_header : 16 ≤ bytes → load_word moved_mem (addr + 8) ≡ load_word m (from - 8)
  moved_header hb = ground (
    arith,
    load_bytes-store_bytes_apart 8 8 (copy m (from - 8) (addr + 8) (bytes - 8)) addr (addr + 8)
        (from / 2 ^ 3) (inr (omega arith)),
    load_bytes-copy 8 m (from - 8) (addr + 8) (bytes - 8) 0 (omega arith),
  )

  moved_word : ℕ
  moved_word = with_state vm.bit_fields hashed_and_moved (load_word m (from - 8))

  final_header : load_word (store_word moved_mem (addr + 8) moved_word) (addr + 8) ≡ moved_word
  unfolding moved_word
  final_header =
      load_bytes-store_bytes 8 moved_mem (addr + 8) moved_word
        (with_state-lt vm.bit_fields ok.laws hashed_and_moved (load_word m (from - 8)) ok.word)

  final_hash : load_word (store_word moved_mem (addr + 8) moved_word) addr ≡ from / 2 ^ 3
  final_hash =
      load_bytes-store_bytes_apart 8 8 moved_mem (addr + 8) addr moved_word (inl (omega arith))
      ∙ load_bytes-store_bytes 8 (copy m (from - 8) (addr + 8) (bytes - 8)) addr (from / 2 ^ 3)
          (omega (arith, ok.high))

  final_byte :
      (i : ℕ)
      → i + 16 < bytes
      → store_word moved_mem (addr + 8) moved_word (addr + 16 + i) ≡ m (from + i)
  unfolding copy
  final_byte i hi = ground (
    arith,
    ok.low,
    store_bytes-outside 8 moved_mem (addr + 8) moved_word (addr + 16 + i) (inr (omega arith)),
    store_bytes-outside 8 (copy m (from - 8) (addr + 8) (bytes - 8)) addr (from / 2 ^ 3)
        (addr + 16 + i) (inr (omega arith)),
  )

  -- A hashed object that is moved to an address whose bytes do not wrap stands sixteen bytes
  -- behind it. It keeps its hash code, which is now stored in front of it, its metadata and each
  -- byte of its payload.
  -- The object satisfies `IsHashed`, and at least 16 bytes are moved.
  pub move_object-hashed :
      StateIs vm m from hashed
      → 16 ≤ bytes
      → addr + bytes < word_mod
      → (m' : Mem) × (move_object vm m from (to_address addr) bytes ≡ some (addr + 16, m'))
        × StateIs vm m' (addr + 16) hashed_and_moved
        × (hashcode vm m' (addr + 16) ≡ some (from / 2 ^ 3, m'))
        × (metadata_of vm m' (addr + 16) ≡ metadata_of vm m from)
        × ((i : ℕ) → i + 16 < bytes → m' (addr + 16 + i) ≡ m (from + i))
  unfolding moved_word move_object hashcode hash_state set_hash_state header
  move_object-hashed st hb ha = (
    store_word moved_mem (addr + 8) moved_word,
    ground (arith, ok.hashing, ok.low, ok.high, moved_header hb),
    ground (
      arith,
      final_header,
      from_bitfield-with_state vm.bit_fields ok.laws hashed_and_moved (load_word m (from - 8)),
    ),
    ground (
      arith,
      ok.hashing,
      final_header,
      final_hash,
      from_bitfield-with_state vm.bit_fields ok.laws hashed_and_moved (load_word m (from - 8)),
    ),
    ground (
      arith,
      final_header,
      metadata-with_state vm.bit_fields ok.laws hashed_and_moved (load_word m (from - 8)),
    ),
    final_byte,
  )
