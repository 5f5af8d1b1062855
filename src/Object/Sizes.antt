-- ===== src/Object/Sizes.antt =====
-- Sizes and addresses that the collector asks for before and after a move.
use vmkit_core.Prelude.{ℕ, ◌+◌, ◌≤◌, ◌<◌, ◌≡◌, ◌⊎◌, inl, inr, some, arith, Option-cases}
use vmkit_core.Prelude.Words.{word_mod}
use vmkit_core.Memory.{Mem}
use vmkit_core.Header.{HashState, unhashed, hashed, hashed_and_moved, hash_state, metadata}
use vmkit_core.Object.{
  ObjectVm, object_start, hashcode_overhead, bytes_used, bytes_required_when_copied,
}
use vmkit_core.Object.Move.{to_address, move_object, get_reference_when_copied_to}
use vmkit_core.Object.Hashing.{IsHashed, StateIs, metadata_of, move_object-hashed}
use vmkit_core.Object.Hashing.Again.{move_object-unhashed, move_object-hashed_and_moved}

-- The state of an object after a move, by the state before it.
abbrev pub state_after : HashState → HashState
state_after unhashed = hashed
state_after hashed = hashed_and_moved
state_after hashed_and_moved = hashed

-- The bytes between the address that an object is moved to and the object.
abbrev pub bytes_in_front : HashState → ℕ
bytes_in_front unhashed = 8
bytes_in_front _ = 16

module _ (vm : ObjectVm) (m : Mem) (from addr bytes : ℕ) (ok : IsHashed vm m from) where
  -- For every hash state, the reference that `get_reference_when_copied_to` announces for an
  -- address is the one that the move to this address returns, if its bytes do not wrap there.
  -- The object satisfies `IsHashed`, and at least 16 bytes are moved.
  pub get_reference_when_copied_to-move_object :
      (s : HashState)
      → StateIs vm m from s
      → 16 ≤ bytes
      → addr + bytes < word_mod
      → (to : ℕ) × (m' : Mem) × (get_reference_when_copied_to vm m from addr ≡ some to)
        × (move_object vm m from (to_address addr) bytes ≡ some (to, m'))
  unfolding get_reference_when_copied_to hashcode_overhead hash_state
  get_reference_when_copied_to-move_object unhashed st hb ha =
      let r = move_object-unhashed vm m from addr bytes ok st (omega arith) ha in
      (addr + 8, r.0, ground (arith, ok.hashing, ok.low, ok.high), r.1)
  get_reference_when_copied_to-move_object hashed st hb ha =
      let r = move_object-hashed vm m from addr bytes ok st hb ha in
      (addr + 16, r.0, ground (arith, ok.hashing, ok.low, ok.high), r.1)
  get_reference_when_copied_to-move_object hashed_and_moved st hb ha =
      let r = move_object-hashed_and_moved vm m from addr bytes ok st hb ha in
      (addr + 16, r.0, ground (arith, ok.hashing, ok.low, ok.high), r.3)

  -- A move to an address whose bytes do not wrap puts the object behind its header and hash slot,
  -- in the next state of its life, with the metadata it had.
  moved :
      (s : HashState)
      → StateIs vm m from s
      → 16 ≤ bytes
      → addr + bytes < word_mod
      → (m' : Mem) × (move_object vm m from (to_address addr) bytes
          ≡ some (addr + bytes_in_front s, m'))
        × StateIs vm m' (addr + bytes_in_front s) (state_after s)
        × (metadata_of vm m' (addr + bytes_in_front s) ≡ metadata_of vm m from)
  moved unhashed st hb ha =
      let r = move_object-unhashed vm m from addr bytes ok st (omega arith) ha in
      (r.0, r.1, r.2, r.3)
  moved hashed st hb ha =
      let r = move_object-hashed vm m from addr bytes ok st hb ha in (r.0, r.1, r.2, r.4)
  moved hashed_and_moved st hb ha =
      let r = move_object-hashed_and_moved vm m from addr bytes ok st hb ha in (r.0, r.3, r.4, r.6)

  -- After a move the start of the object is the address it was moved to; but an object that was
  -- hashed and moved before appears to start eight bytes behind that address.
  -- The object satisfies `IsHashed`, and at least 16 bytes are moved.
  pub object_start-move_object :
      (s : HashState)
      → StateIs vm m from s
      → 16 ≤ bytes
      → addr + bytes < word_mod
      → (to : ℕ) × (m' : Mem) × (move_object vm m from (to_address addr) bytes ≡ some (to, m'))
        × (object_start vm m' to ≡ some (elim s [ hashed_and_moved ↦ addr + 8 | _ ↦ addr ]))
  unfolding object_start hash_state
  object_start-move_object unhashed st hb ha =
      let r = moved unhashed st hb ha in (addr + 8, r.0, r.1, ground (arith, ok.hashing, ha, r.2))
  object_start-move_object hashed st hb ha =
      let r = moved hashed st hb ha in (addr + 16, r.0, r.1, ground (arith, ok.hashing, ha, r.2))
  object_start-move_object hashed_and_moved st hb ha =
      let r = moved hashed_and_moved st hb ha in
      (addr + 16, r.0, r.1, ground (arith, ok.hashing, ha, r.2))

  -- For an object that was not moved after being hashed, whose size the VM computes alike before
  -- and after: the bytes that the moved object uses are those that were required for its copy.
  -- The object satisfies `IsHashed`, and at least 16 bytes are moved.
  pub bytes_used-move_object :
      (s : HashState)
      → (s ≡ unhashed) ⊎ (s ≡ hashed)
      → StateIs vm m from s
      → 16 ≤ bytes
      → addr + bytes < word_mod
      → ((m' : Mem) (f : Mem → ℕ → ℕ) (to : ℕ)
          → move_object vm m from (to_address addr) bytes ≡ some (to, m')
          → (vm.gc_metadata (metadata_of vm m from)).compute_size ≡ some f
          → f m' to ≡ f m from)
      → (to : ℕ) × (m' : Mem) × (move_object vm m from (to_address addr) bytes ≡ some (to, m'))
        × (bytes_used vm m' to ≡ bytes_required_when_copied vm m from)
  unfolding bytes_used bytes_required_when_copied hash_state metadata
  bytes_used-move_object unhashed os st hb ha same =
      let r = moved unhashed st hb ha in
      (
        addr + 8,
        r.0,
        r.1,
        elim (Option-cases (vm.gc_metadata (metadata_of vm m from)).compute_size) [
          | inl e ↦ ground (arith, ok.hashing, ok.low, ok.high, ha, st, r.2, r.3, e)
          | inr (f, e) ↦
              ground (
                arith,
                ok.hashing,
                ok.low,
                ok.high,
                ha,
                st,
                r.2,
                r.3,
                e,
                same r.0 f (addr + 8) r.1 e,
              )
        ],
      )
  bytes_used-move_object hashed os st hb ha same =
      let r = moved hashed st hb ha in
      (
        addr + 16,
        r.0,
        r.1,
        elim (Option-cases (vm.gc_metadata (metadata_of vm m from)).compute_size) [
          | inl e ↦ ground (arith, ok.hashing, ok.low, ok.high, ha, st, r.2, r.3, e)
          | inr (f, e) ↦ ground (
            arith,
            ok.hashing,
            ok.low,
            ok.high,
            ha,
            st,
            r.2,
            r.3,
            e,
            same r.0 f (addr + 16) r.1 e,
          )
        ],
      )
  bytes_used-move_object hashed_and_moved os st hb ha same = absurd (ground arith)
