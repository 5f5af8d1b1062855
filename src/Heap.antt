-- ===== src/Heap.antt =====
-- vmkit/src/mm.rs: `MemoryManager`, which allocates objects through the thread-local buffer or
-- through mmtk. The allocators of mmtk, which may collect garbage, are parameters: each gives an
-- address and the state of the thread's mutator afterwards. `none` is a panic.
pub mod Paths
pub mod Slow
pub mod Manage
pub mod Disabling
mod Tests
use Prim.Native.Nat.{bit_or}
use vmkit_core.Prelude.{
  ℕ, ◌+◌, ◌-◌, ◌/◌, ◌%◌, ◌^◌, Bool, true, false, not, ◌&&◌, if◌then◌else◌, Option, none, some, ◌==◌,
  leb, ◌>>=◌,
}
use vmkit_core.Prelude.Words.{wrap}
use vmkit_core.Memory.{Mem, put, store_word}
use vmkit_core.Align.{VmAlignment}
use vmkit_core.Header.{object_ref_offset}
use vmkit_core.Tlab.{Tlab, allocate, rebind, take}

-- `AllocationSemantics` of mmtk, as far as the source tells them apart.
pub data Semantics : Type 0 where
  default los non_moving immortal : Semantics
  other_semantics : ℕ → Semantics

pub data AllocFastPath : Type 0 where
  by_tlab by_free_list no_fast_path : AllocFastPath

-- The allocator of the default semantics, by `AllocatorSelector`; two of them have a bump pointer.
pub data Selector : Type 0 where
  immix bump_pointer no_bump_pointer : Selector

-- Memory, the buffer of the thread, and the bump pointer of its default allocator.
pub record Mutator : Type 0 where
  pub mem : Mem
  pub tlab : Tlab
  pub bump : Tlab

-- mmtk and what the VM configures: an allocation has a semantics, a size, an alignment and an
-- offset.
pub record Mmtk : Type 0 where
  pub raw_align_up : ℕ → ℕ → ℕ
  pub alloc : Semantics → ℕ → ℕ → ℕ → Mutator → ℕ × Mutator
  pub alloc_slow : Semantics → ℕ → ℕ → ℕ → Mutator → ℕ × Mutator
  pub post_alloc : ℕ → ℕ → Mutator → Mutator
  pub selector : Selector
  pub vo_bit_base : ℕ
  pub max_non_los_default_alloc_bytes : ℕ
  pub alloc_fastpath : AllocFastPath
  pub vm : VmAlignment

module _ (mmtk : Mmtk) where
  -- With the feature `cooperative`; without it the function does nothing.
  pub set_vo_bit : Mem → ℕ → Mem
  set_vo_bit m object =
      let meta = mmtk.vo_bit_base + object / 2 ^ 6 in
      put m meta (bit_or (m meta) (2 ^ (object / 2 ^ 3 % 8)))

  unfoldable pub flush_tlab : Mutator → Option Mutator
  unfolding take
  flush_tlab t =
      let ((cursor, limit), tlab) = take t.tlab in
      let t' = record t { tlab = tlab } in
      if cursor == 0 then (if limit == 0 then some t' else none) else (elim mmtk.selector [
        | no_bump_pointer ↦ none
        | _ ↦ some (record t' { bump = record { cursor = cursor; limit = limit } })
      ])

  pub refill_tlab : Mutator → Mutator
  unfolding rebind
  refill_tlab t = elim mmtk.selector [
    | no_bump_pointer ↦ t
    | _ ↦ record t { tlab = rebind t.tlab t.bump.cursor t.bump.limit }
  ]

  -- The store of a new header, whose word is `header`, and the valid-object bit.
  pub initialise : ℕ → ℕ → Mutator → Mutator
  unfolding set_vo_bit
  initialise header object_start t = record t {
    mem =
        set_vo_bit (store_word t.mem object_start header) (wrap (object_start + object_ref_offset));
  }

  -- `allocate_los`.
  pub allocate_los : ℕ → ℕ → ℕ → Mutator → Option (ℕ × Mutator)
  unfolding flush_tlab refill_tlab
  allocate_los header size alignment t = do
    t1 ← flush_tlab t
    let (object_start, t2) = mmtk.alloc Semantics.los size alignment object_ref_offset t1
    let object = wrap (object_start + object_ref_offset)
    let t3 = record t2 { mem = store_word t2.mem object_start header }
    some (object, mmtk.post_alloc object size (refill_tlab t3))

  -- `allocate_nonmoving` and `allocate_immortal`, by their semantics, and `allocate_out_of_line`
  -- from its last match on, which has another offset.
  pub allocate_with : Semantics → ℕ → ℕ → ℕ → ℕ → Mutator → Option (ℕ × Mutator)
  unfolding flush_tlab refill_tlab initialise
  allocate_with semantics offset header size alignment t = do
    t1 ← flush_tlab t
    let (object_start, t2) = mmtk.alloc semantics size alignment offset t1
    some (wrap (object_start + object_ref_offset), refill_tlab (initialise header object_start t2))

  pub allocate_nonmoving : ℕ → ℕ → ℕ → Mutator → Option (ℕ × Mutator)
  unfolding allocate_with
  allocate_nonmoving = allocate_with Semantics.non_moving object_ref_offset

  pub allocate_immortal : ℕ → ℕ → ℕ → Mutator → Option (ℕ × Mutator)
  unfolding allocate_with
  allocate_immortal = allocate_with Semantics.immortal object_ref_offset

  pub allocate_slow : ℕ → ℕ → ℕ → Semantics → Mutator → Option (ℕ × Mutator)
  unfolding flush_tlab refill_tlab initialise
  allocate_slow header size alignment semantics t = do
    t1 ← flush_tlab t
    let (object_start, t2) = mmtk.alloc_slow semantics size alignment object_ref_offset t1
    some (wrap (object_start + object_ref_offset), refill_tlab (initialise header object_start t2))

  -- The semantics for a size that includes the header.
  pub adjust_semantics : ℕ → Semantics → Semantics
  adjust_semantics size Semantics.default =
      if leb mmtk.max_non_los_default_alloc_bytes size then Semantics.los else Semantics.default
  adjust_semantics size s = s

  pub allocate_out_of_line : ℕ → ℕ → ℕ → Semantics → Mutator → Option (ℕ × Mutator)
  unfolding allocate_los allocate_nonmoving allocate_immortal allocate_with adjust_semantics
  allocate_out_of_line header size alignment semantics t =
      let size' = mmtk.raw_align_up (size + 8) alignment in
      elim (adjust_semantics (size + 8) semantics) [
        | Semantics.los ↦ allocate_los header size' alignment t
        | Semantics.non_moving ↦ allocate_nonmoving header size' alignment t
        | Semantics.immortal ↦ allocate_immortal header size' alignment t
        | s ↦ allocate_with s 0 header size' alignment t
      ]

  -- The branch of `allocate` for `AllocFastPath::TLAB`.
  pub allocate_from_tlab : ℕ → ℕ → ℕ → Mutator → Option (ℕ × Mutator)
  unfolding initialise allocate_slow
  allocate_from_tlab header size alignment t =
      let (object_start, tlab) =
        allocate mmtk.raw_align_up mmtk.vm t.mem t.tlab size alignment object_ref_offset in
      let t' = record t { tlab = tlab } in
      if not (object_start == 0)
      then some (wrap (object_start + object_ref_offset), initialise header object_start t')
      else allocate_slow header size alignment Semantics.default t'

  -- `MemoryManager::allocate`; `header` is the word of `HeapObjectHeader::new(metadata)`.
  pub allocate_object : ℕ → ℕ → ℕ → Semantics → Mutator → Option (ℕ × Mutator)
  unfolding allocate_from_tlab allocate_out_of_line adjust_semantics
  allocate_object header size alignment semantics t = elim (adjust_semantics (size + 8) semantics) [
    | Semantics.default ↦ elim mmtk.alloc_fastpath [
      | by_tlab ↦ allocate_from_tlab header (mmtk.raw_align_up (size + 8) alignment) alignment t
      | _ ↦ allocate_out_of_line header size alignment semantics t
    ]
    | _ ↦ allocate_out_of_line header size alignment semantics t
  ]

-- The write barrier after a store: whether it calls `object_reference_write_slow`, by the log bit
-- of the object in the side metadata from `base` on.
unfoldable pub object_reference_write_post : Bool → ℕ → Mem → ℕ → Bool
object_reference_write_post object_barrier base m src =
    object_barrier && (m (base + src / 2 ^ 6) / 2 ^ (src / 2 ^ 3 % 8) % 2 == 1)

-- `disable_gc`, `enable_gc` and `is_gc_enabled` on `gc_disabled_depth`.
-- The counter wraps.
pub disable_gc : ℕ → ℕ
disable_gc depth = wrap (depth + 1)

pub enable_gc : ℕ → ℕ
enable_gc depth = wrap (depth + (2 ^ 64 - 1))

pub is_gc_enabled : ℕ → Bool
is_gc_enabled depth = depth == 0
