-- ===== src/Object/Hashing/Again.antt =====
-- Moves of objects that were never hashed, or that were hashed and moved before.
use vmkit_core.Prelude.{ℕ, ◌+◌, ◌-◌, ◌/◌, ◌^◌, ◌≤◌, ◌<◌, ◌≡◌, inr, some, arith}
use vmkit_core.Prelude.Words.{word_mod}
use vmkit_core.Memory.{
  Mem, load_word, store_word, copy, load_bytes-store_bytes, load_bytes-copy, store_bytes-outside,
  copy-inside,
}
use vmkit_core.Header.{unhashed, hashed, hashed_and_moved, hash_state, set_hash_state}
use vmkit_core.Header.Fields.{
  with_state, from_bitfield-with_state, metadata-with_state, with_state-lt,
}
use vmkit_core.Object.{ObjectVm, hashcode}
use vmkit_core.Object.Move.{to_address, move_object}
use vmkit_core.Object.Hashing.{IsHashed, StateIs, metadata_of}

-- A copy of `bytes` bytes from `shift` bytes in front of the object, whose header is then marked
-- as hashed.
module _ (vm : ObjectVm) (m : Mem) (from addr bytes shift : ℕ) (ok : IsHashed vm m from)
    (front : 8 ≤ shift) (room : shift ≤ 16) (hb : shift ≤ bytes) where
  abbrev copied : Mem
  copied = copy m (from - shift) addr bytes

  new_word : ℕ
  new_word = with_state vm.bit_fields hashed (load_word m (from - 8))

  marked : Mem
  marked = store_word copied (addr + shift - 8) new_word

  copied_header : load_word copied (addr + shift - 8) ≡ load_word m (from - 8)
  copied_header =
      ground
        (arith, ok.low, load_bytes-copy 8 m (from - shift) addr bytes (shift - 8) (omega arith))

  marked_header : load_word marked (addr + shift - 8) ≡ new_word
  unfolding new_word marked
  marked_header =
      load_bytes-store_bytes 8 copied (addr + shift - 8) new_word
        (with_state-lt vm.bit_fields ok.laws hashed (load_word m (from - 8)) ok.word)

  marked_state : StateIs vm marked (addr + shift) hashed
  unfolding new_word
  marked_state = ground (
    arith,
    marked_header,
    from_bitfield-with_state vm.bit_fields ok.laws hashed (load_word m (from - 8)),
  )

  marked_metadata : metadata_of vm marked (addr + shift) ≡ metadata_of vm m from
  unfolding new_word
  marked_metadata = ground (
    arith,
    marked_header,
    metadata-with_state vm.bit_fields ok.laws hashed (load_word m (from - 8)),
  )

  marked_byte : (i : ℕ) → i + shift < bytes → marked (addr + shift + i) ≡ m (from + i)
  unfolding marked
  marked_byte i hi = ground (
    arith,
    ok.low,
    store_bytes-outside 8 copied (addr + shift - 8) new_word (addr + shift + i) (inr (omega arith)),
    copy-inside m (from - shift) addr bytes (shift + i) (omega arith),
  )

module _ (vm : ObjectVm) (m : Mem) (from addr bytes : ℕ) (ok : IsHashed vm m from) where
  -- An object that was never hashed keeps its metadata and each byte of its payload when it is
  -- moved to an address whose bytes do not wrap; it stands eight bytes behind that address, and
  -- its header says that it was hashed.
  -- The object satisfies `IsHashed`, and at least 8 bytes are moved.
  pub move_object-unhashed :
      StateIs vm m from unhashed
      → 8 ≤ bytes
      → addr + bytes < word_mod
      → (m' : Mem) × (move_object vm m from (to_address addr) bytes ≡ some (addr + 8, m'))
        × StateIs vm m' (addr + 8) hashed
        × (metadata_of vm m' (addr + 8) ≡ metadata_of vm m from)
        × ((i : ℕ) → i + 8 < bytes → m' (addr + 8 + i) ≡ m (from + i))
  unfolding marked new_word move_object hash_state set_hash_state
  move_object-unhashed st hb ha =
      let a : 8 ≤ 8 = omega arith in
      let c : 8 ≤ 16 = omega arith in
      (
        marked vm m from addr bytes 8 ok a c hb,
        ground (arith, ok.hashing, ok.low, ok.high, copied_header vm m from addr bytes 8 ok a c hb),
        marked_state vm m from addr bytes 8 ok a c hb,
        marked_metadata vm m from addr bytes 8 ok a c hb,
        marked_byte vm m from addr bytes 8 ok a c hb,
      )

  -- An object that was hashed and moved before has the stored hash code. A further move to an
  -- address whose bytes do not wrap keeps its metadata and payload, but its header then says
  -- `hashed` only, so that its hash code becomes a number made from the new address.
  -- The object satisfies `IsHashed`, and at least 16 bytes are moved.
  pub move_object-hashed_and_moved :
      StateIs vm m from hashed_and_moved
      → 16 ≤ bytes
      → addr + bytes < word_mod
      → (m' : Mem) × (m'' : Mem) × (hashcode vm m from ≡ some (load_word m (from - 16), m))
        × (move_object vm m from (to_address addr) bytes ≡ some (addr + 16, m'))
        × StateIs vm m' (addr + 16) hashed
        × (hashcode vm m' (addr + 16) ≡ some ((addr + 16) / 2 ^ 3, m''))
        × (metadata_of vm m' (addr + 16) ≡ metadata_of vm m from)
        × ((i : ℕ) → i + 16 < bytes → m' (addr + 16 + i) ≡ m (from + i))
  unfolding move_object hashcode hash_state set_hash_state
  move_object-hashed_and_moved st hb ha =
      let a : 8 ≤ 16 = omega arith in
      let c : 16 ≤ 16 = omega arith in
      (
        marked vm m from addr bytes 16 ok a c hb,
        store_word (marked vm m from addr bytes 16 ok a c hb) (addr + 8) (
            with_state vm.bit_fields hashed
              (load_word (marked vm m from addr bytes 16 ok a c hb) (addr + 8))),
        ground (arith, ok.hashing, ok.low, ok.high),
        unfold marked new_word in
            ground
              (arith, ok.hashing, ok.low, ok.high, copied_header vm m from addr bytes 16 ok a c hb),
        marked_state vm m from addr bytes 16 ok a c hb,
        ground (arith, ok.hashing, ha, marked_state vm m from addr bytes 16 ok a c hb),
        marked_metadata vm m from addr bytes 16 ok a c hb,
        marked_byte vm m from addr bytes 16 ok a c hb,
      )
