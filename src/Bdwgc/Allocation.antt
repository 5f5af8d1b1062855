-- ===== src/Bdwgc/Allocation.antt =====
-- The allocation functions of bdwgc_shim.rs, which write the metadata word of the new object, and
-- those that look at an object. `none` is a panic.
pub mod Headers
pub mod Tracing
pub mod Kinds
use Prim.Native.Nat.{bit_or}
use vmkit_core.Prelude.{
  ℕ, zero, suc, ◌+◌, ◌/◌, ◌%◌, ◌^◌, Bool, true, false, if◌then◌else◌, List, [], ◌∷◌, Option, none,
  some, ◌==◌, ◌>>=◌, length,
}
use vmkit_core.Memory.{Mem, put, copy}
use vmkit_core.Header.{metadata}
use vmkit_core.Object.{bytes_used}
use vmkit_core.Heap.{Mmtk, Mutator, Semantics, default, immortal, allocate_object}
use vmkit_core.Bdwgc.Words.{
  composite, with_descr, kind_to_bitfield, size_shift, size_width, kind_shift, kind_width,
  atomic_shift, min_alignment, is_atomic,
}
use vmkit_core.Bdwgc.Marking.{Collector, bdwgc_vm, to_list}

-- `encode` of the fields.
module _ (encode : ℕ → ℕ → ℕ → ℕ) where
  pub plain_metadata : ℕ → ℕ
  plain_metadata size = encode size_shift size_width (size / min_alignment)

  pub atomic_metadata : ℕ → ℕ
  unfolding kind_to_bitfield
  atomic_metadata size =
      bit_or
        (bit_or (encode size_shift size_width (size / min_alignment))
          (encode kind_shift kind_width (kind_to_bitfield composite)))
        (encode atomic_shift 1 1)

  -- The kind is cast to a `u8`.
  pub generic_metadata : (size k : ℕ) → ℕ
  unfolding kind_to_bitfield
  generic_metadata size k =
      bit_or (encode size_shift size_width (size / min_alignment))
        (encode kind_shift kind_width (kind_to_bitfield (with_descr (k % 2 ^ 8))))

  module _ (mmtk : Mmtk) where
    pub gc_malloc : ℕ → Mutator → Option (ℕ × Mutator)
    unfolding plain_metadata
    gc_malloc size t = allocate_object mmtk (plain_metadata size) size min_alignment default t

    pub gc_malloc_atomic : ℕ → Mutator → Option (ℕ × Mutator)
    unfolding atomic_metadata
    gc_malloc_atomic size t =
        allocate_object mmtk (atomic_metadata size) size min_alignment default t

    unfoldable pub gc_malloc_uncollectable : ℕ → Mutator → Option (ℕ × Mutator)
    unfolding plain_metadata
    gc_malloc_uncollectable size t =
        allocate_object mmtk (plain_metadata size) size min_alignment immortal t

    unfoldable pub gc_generic_malloc : (size k : ℕ) → Mutator → Option (ℕ × Mutator)
    unfolding generic_metadata
    gc_generic_malloc size k t =
        allocate_object mmtk (generic_metadata size k) size min_alignment default t

    unfoldable pub gc_generic_malloc_uncollectable : (size k : ℕ) → Mutator → Option (ℕ × Mutator)
    unfolding generic_metadata
    gc_generic_malloc_uncollectable size k t =
        allocate_object mmtk (generic_metadata size k) size min_alignment immortal t

    -- The descriptor is ignored.
    unfoldable pub gc_malloc_explicitly_typed : (size descr : ℕ) → Mutator → Option (ℕ × Mutator)
    unfolding gc_malloc
    gc_malloc_explicitly_typed size descr t = gc_malloc size t

    unfoldable pub gc_malloc_ignore_off_page : ℕ → Mutator → Option (ℕ × Mutator)
    unfolding gc_malloc
    gc_malloc_ignore_off_page size t = gc_malloc size t

    unfoldable pub gc_malloc_atomic_ignore_off_page : ℕ → Mutator → Option (ℕ × Mutator)
    unfolding gc_malloc_atomic
    gc_malloc_atomic_ignore_off_page size t = gc_malloc_atomic size t

    unfoldable pub gc_generic_malloc_ignore_off_page : (size k : ℕ) → Mutator → Option (ℕ × Mutator)
    unfolding generic_metadata
    gc_generic_malloc_ignore_off_page size k t =
        allocate_object mmtk (generic_metadata size k) size min_alignment default t

    -- A C string is its bytes before the terminator; `lossy` is `to_string_lossy`.
    abbrev pub write_bytes : Mem → ℕ → List ℕ → Mem
    write_bytes m a [] = m
    write_bytes m a (x ∷ xs) = put (write_bytes m (a + 1) xs) a x

    unfoldable pub gc_strdup : (List ℕ → List ℕ) → Option (List ℕ) → Mutator → Option (ℕ × Mutator)
    unfolding gc_malloc_atomic
    gc_strdup lossy none t = some (0, t)
    gc_strdup lossy (some s) t = do
      let bytes = lossy s
      (ns, t') ← gc_malloc_atomic (length bytes) t
      some (ns, record t' { mem = write_bytes t'.mem ns bytes })

    unfoldable pub gc_strndup : ℕ → ℕ → Mutator → Option (ℕ × Mutator)
    unfolding gc_malloc_atomic
    gc_strndup s n t = do
      (ns, t') ← gc_malloc_atomic n t
      some (ns, record t' { mem = copy t'.mem s ns n })

    -- It copies as many bytes as the new size says.
    unfoldable pub gc_realloc : Collector → ℕ → ℕ → Mutator → Option (ℕ × Mutator)
    unfolding gc_malloc gc_malloc_atomic
    gc_realloc c old size t = do
      meta ← metadata c.bit_fields c.address_based_hashing t.mem old
      (mem, t') ←
          (if is_atomic c.bit_fields meta then gc_malloc_atomic size t else gc_malloc size t)
      some (mem, record t' { mem = copy t'.mem old mem size })

-- The address of the object that a pointer points into, or null.
unfoldable pub gc_base : Collector → ℕ → ℕ
gc_base c ptr = elim (c.find_object_from_internal_pointer ptr 128) [
  | none ↦ 0
  | some object ↦ object
]

unfoldable pub gc_size : Collector → Mem → ℕ → Option ℕ
gc_size c m ptr = elim (c.find_object_from_internal_pointer ptr 128) [
  | none ↦ some 0
  | some object ↦ bytes_used (bdwgc_vm c) m object
]

-- What `GC_mark_and_push` traces.
unfoldable pub gc_mark_and_push : Collector → ℕ → List ℕ
gc_mark_and_push c obj = to_list (c.find_object_from_internal_pointer obj 128)
