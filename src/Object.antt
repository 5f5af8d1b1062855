-- ===== src/Object.antt =====
-- vmkit/src/object_model/object.rs: sizes, start, alignment and hash code of an object.
-- `none` is a panic. What the VM and the crates below supply is the record `ObjectVm`.
pub mod Move
pub mod CopyTo
pub mod Sizes
pub mod Hashing
pub mod Unhashed
pub mod Fields
mod Tests
use mathlib.Core.Option
use vmkit_core.Prelude.{
  ℕ, ◌+◌, ◌-◌, ◌/◌, ◌^◌, Bool, true, false, if◌then◌else◌, Option, none, some, ◌==◌, ◌>>=◌,
}
use vmkit_core.Prelude.Words.{wrap, wrapping_sub}
use vmkit_core.Memory.{Mem, load_word}
use vmkit_core.Header.{
  BitFields, HashState, unhashed, hashed, hashed_and_moved, header, hash_state, set_hash_state,
  metadata, object_ref_offset, hashcode_back,
}

-- `GCMetadata` of vmkit/src/object_model/metadata.rs, less the tracing callback. The functions
-- that a VM supplies read memory.
pub record GcMetadata : Type 0 where
  pub instance_size : ℕ
  pub compute_size : Option (Mem → ℕ → ℕ)
  pub alignment : ℕ
  pub compute_alignment : Option (Mem → ℕ → ℕ)

pub record ObjectVm : Type 0 where
  pub bit_fields : BitFields
  pub address_based_hashing : Bool
  -- `VM::Metadata::from_bitfield(bits).gc_metadata()`
  pub gc_metadata : ℕ → GcMetadata
  pub compute_hashcode : Mem → ℕ → ℕ
  pub max_alignment : ℕ
  pub raw_align_up : ℕ → ℕ → ℕ

abbrev pub size_of_usize : ℕ
size_of_usize = 8

-- size_of::<HeapObjectHeader<VM>>()
abbrev pub size_of_header : ℕ
size_of_header = 8

-- LOG_BYTES_IN_ADDRESS
abbrev pub log_bytes_in_address : ℕ
log_bytes_in_address = 3

module _ (vm : ObjectVm) where
  pub object_gc_metadata : Mem → ℕ → Option GcMetadata
  object_gc_metadata m obj = do
    bits ← metadata vm.bit_fields vm.address_based_hashing m obj
    some (vm.gc_metadata bits)

  unfoldable pub alignment : Mem → ℕ → Option ℕ
  unfolding object_gc_metadata
  alignment m obj = do
    gc ← object_gc_metadata m obj
    some (
        if gc.alignment == 0
        then (elim gc.compute_alignment [ some f ↦ f m obj | none ↦ vm.max_alignment ])
        else gc.alignment)

  pub has_hashcode : Bool → HashState → Bool
  has_hashcode true unhashed = false
  has_hashcode true _ = true
  has_hashcode false hashed_and_moved = true
  has_hashcode false _ = false

  -- The constant argument `WHEN_COPIED` comes last.
  unfoldable pub hashcode_overhead : Mem → ℕ → Bool → Option ℕ
  unfolding has_hashcode
  hashcode_overhead m obj when_copied =
      if vm.address_based_hashing
      then (do
        state ← hash_state vm.bit_fields true m obj
        some (if has_hashcode when_copied state then size_of_usize else 0))
      else some 0

  -- The common body of `bytes_used` and `bytes_required_when_copied`. Each addition wraps, as it does
  -- without overflow checks.
  object_bytes : Mem → ℕ → Bool → Option ℕ
  unfolding object_gc_metadata hashcode_overhead
  object_bytes m obj when_copied = do
    gc ← object_gc_metadata m obj
    overhead ← hashcode_overhead m obj when_copied
    some (
        vm.raw_align_up
          (wrap (
            wrap (
              wrap (overhead + gc.instance_size)
              + (elim gc.compute_size [ some f ↦ f m obj | none ↦ 0 ]))
            + size_of_header))
          8)

  unfoldable pub bytes_used : Mem → ℕ → Option ℕ
  unfolding object_bytes
  bytes_used m obj = object_bytes m obj false

  pub bytes_required_when_copied : Mem → ℕ → Option ℕ
  unfolding object_bytes
  bytes_required_when_copied m obj = object_bytes m obj true

  pub object_start : Mem → ℕ → Option ℕ
  unfolding hashcode_overhead
  object_start m obj = do
    overhead ← hashcode_overhead m obj false
    some (wrapping_sub obj (object_ref_offset + overhead))

  unfoldable pub get_offset_for_alignment : Mem → ℕ → Option ℕ
  unfolding hashcode_overhead
  get_offset_for_alignment m obj = do
    overhead ← hashcode_overhead m obj true
    some (size_of_header + overhead)

  -- The hash code, and memory afterwards: the first call marks the object as hashed.
  pub hashcode : Mem → ℕ → Option (ℕ × Mem)
  hashcode m obj =
      if vm.address_based_hashing
      then (do
        state ← hash_state vm.bit_fields true m obj
        elim state [
          | hashed_and_moved ↦ some (load_word m (wrapping_sub obj hashcode_back), m)
          | _ ↦ (do
            m' ← set_hash_state vm.bit_fields true m obj hashed
            some (obj / 2 ^ log_bytes_in_address, m'))
        ])
      else some (vm.compute_hashcode m obj, m)
