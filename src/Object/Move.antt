-- ===== src/Object/Move.antt =====
-- vmkit/src/object_model.rs: how the collector copies and moves an object.
use vmkit_core.Prelude.{ℕ, ◌+◌, ◌/◌, ◌^◌, true, Option, some, ◌>>=◌}
use vmkit_core.Prelude.Words.{wrap, wrapping_sub}
use vmkit_core.Memory.{Mem, store_word, copy}
use vmkit_core.Header.{
  HashState, unhashed, hashed, hashed_and_moved, hash_state, set_hash_state, object_ref_offset,
  hashcode_back,
}
use vmkit_core.Object.{
  ObjectVm, size_of_usize, log_bytes_in_address, alignment, hashcode_overhead,
  bytes_required_when_copied, get_offset_for_alignment,
}

pub data MoveTarget : Type 0 where
  to_address : ℕ → MoveTarget
  to_object : ℕ → MoveTarget

-- `copy_bytes`, `obj_ref_offset` and the target, adjusted by the hash state.
adjust : HashState → ℕ → MoveTarget → ℕ × ℕ × MoveTarget
adjust hashed bytes (to_address addr) =
    (wrapping_sub bytes size_of_usize, object_ref_offset, to_address (wrap (addr + size_of_usize)))
adjust hashed bytes (to_object obj) =
    (wrapping_sub bytes size_of_usize, object_ref_offset, to_object obj)
adjust hashed_and_moved bytes to = (bytes, object_ref_offset + size_of_usize, to)
adjust unhashed bytes to = (bytes, object_ref_offset, to)

-- `(to_address, to_obj)`.
locate : ℕ → MoveTarget → ℕ × ℕ
locate obj_ref_offset (to_address addr) = (addr, wrap (addr + obj_ref_offset))
locate obj_ref_offset (to_object obj) = (wrapping_sub obj obj_ref_offset, obj)

module _ (vm : ObjectVm) where
  -- The header operations of this VM.
  abbrev state_of : Mem → ℕ → Option HashState
  state_of = hash_state vm.bit_fields vm.address_based_hashing

  abbrev set_state : Mem → ℕ → HashState → Option Mem
  set_state = set_hash_state vm.bit_fields vm.address_based_hashing

  update_state : HashState → Mem → ℕ → ℕ → Option Mem
  update_state hashed m from to =
      set_state (store_word m (wrapping_sub to hashcode_back) (from / 2 ^ log_bytes_in_address)) to
        hashed_and_moved
  update_state _ m from to = set_state m to hashed

  -- The moved object, and memory afterwards.
  unfoldable pub move_object : Mem → ℕ → MoveTarget → ℕ → Option (ℕ × Mem)
  unfolding adjust locate update_state
  move_object m from_obj to num_bytes = do
    state ← state_of m from_obj
    let (copy_bytes, obj_ref_offset, target) = adjust state num_bytes to
    let (dst, to_obj) = locate obj_ref_offset target
    let src = wrapping_sub from_obj obj_ref_offset
    m' ← update_state state (copy m src dst copy_bytes) from_obj to_obj
    some (to_obj, m')

  -- `copy`: `alloc_copy` of mmtk gives the address for a size, an alignment and an offset.
  unfoldable pub copy_object : (ℕ → ℕ → ℕ → ℕ) → Mem → ℕ → Option (ℕ × Mem)
  unfolding move_object
  copy_object alloc_copy m from = do
    bytes ← bytes_required_when_copied vm m from
    align ← alignment vm m from
    offset ← get_offset_for_alignment vm m from
    move_object m from (to_address (alloc_copy bytes align offset)) bytes

  unfoldable pub get_reference_when_copied_to : Mem → ℕ → ℕ → Option ℕ
  get_reference_when_copied_to m from to = do
    overhead ← hashcode_overhead vm m from true
    some (wrap (to + object_ref_offset + overhead))
