-- ===== src/Heap/Manage/Stored.antt =====
-- What is in memory after a value was moved to the heap, and after a reference was written.
use vmkit_core.Prelude.{
  ℕ, ◌+◌, ◌-◌, ◌/◌, ◌%◌, ◌^◌, ◌≤◌, ◌<◌, ◌≡◌, ◌≢◌, ◌∙◌, ◌⊎◌, refl, true, false, none, some, arith,
  inl, ◌==◌, leb, Bool, ◌&&◌,
}
use vmkit_core.Prelude.Words.{word_mod}
use vmkit_core.Memory.{
  Mem, load_word, store_word, store_bytes, load_bytes-store_bytes, load_bytes-store_bytes_apart,
  store_bytes-outside,
}
use vmkit_core.Tlab.Fits.{AlignsUp}
use vmkit_core.Heap.{by_tlab, Mmtk, Mutator, object_reference_write_post}
use vmkit_core.Heap.Paths.{allocate_object-fast}
use vmkit_core.Heap.Manage.{
  Managed, from_address, as_ref, manage, manage_uninit, object_reference_write,
}

-- A value that is moved to the heap where the fast path serves it (the conditions are those of an
-- allocation from the buffer, for the alignment `2^k` of the type), with at least the bytes of its
-- type: the pointer is aligned, it refers to the value, the header in front of it has the metadata
-- built for the value, and the `size` bytes from it on were free in the buffer and no longer are.
pub manage-fast :
    (mmtk : Mmtk) (up : AlignsUp mmtk.raw_align_up) (type : Managed) (value size k : ℕ)
    (t : Mutator)
    → let bytes = mmtk.raw_align_up (size + 8) (2 ^ k) in
      let end = t.tlab.cursor + 2 ^ k + mmtk.raw_align_up bytes (2 ^ k) in
      type.align_of ≡ 2 ^ k
      → type.size_of ≤ size
      → value < 256 ^ type.size_of
      → mmtk.alloc_fastpath ≡ by_tlab
      → size + 8 < mmtk.max_non_los_default_alloc_bytes
      → k < 64
      → type.header value < 2 ^ 64
      → (size + 8 + 2 ^ k ≤ word_mod) × (bytes + 2 ^ k ≤ word_mod)
      → 0 < t.tlab.cursor
      → end ≤ t.tlab.limit
      → (t.tlab.limit ≤ mmtk.vo_bit_base) × (t.tlab.limit < word_mod)
      → (ptr : ℕ) × (u : Mutator) × (manage mmtk type value size t ≡ some (ptr, u))
        × (ptr % 2 ^ k ≡ 0)
        × (as_ref type u.mem ptr ≡ value)
        × (load_word u.mem (ptr - 8) ≡ type.header value)
        × (t.tlab.cursor + 8 ≤ ptr)
        × (ptr + size ≤ u.tlab.cursor)
        × (u.tlab.cursor ≤ t.tlab.limit)
unfolding manage from_address as_ref
manage-fast mmtk up type value size k t al fits small fast los hk hh room pos end ends =
    let (object, u, served, multiple, header, low, high, within, limit, bump) =
      allocate_object-fast mmtk up (type.header value) size k t fast los hk hh room pos end ends in
    let m' = store_bytes type.size_of u.mem object value in
    let enough : leb type.size_of size ≡ true = ground (arith, fits) in
    let here : (object == 0) ≡ false = ground (arith, low) in
    (
      object,
      record u { mem = m' },
      rw (enough, al, served, here) refl,
      multiple,
      load_bytes-store_bytes type.size_of u.mem object value small,
      load_bytes-store_bytes_apart 8 type.size_of u.mem object (object - 8) value
            (inl (omega arith))
          ∙ header,
      low,
      high,
      omega arith,
    )

-- A type does not fit into fewer bytes than it has: both functions panic, and allocate nothing.
pub manage_too_small :
    (mmtk : Mmtk) (type : Managed) (value size : ℕ) (t : Mutator)
    → size < type.size_of
    → (manage mmtk type value size t ≡ none) × (manage_uninit mmtk type size t ≡ none)
unfolding manage manage_uninit
manage_too_small mmtk type value size t h = (ground arith, ground arith)

-- Writing a reference that is not null to a slot that does not hold the object's log bit: the slot
-- then holds the reference, and the barrier takes its slow path exactly when it is an object barrier
-- and the object's log bit was set before.
pub object_reference_write_lem :
    (object_barrier : Bool) (base : ℕ) (m : Mem) (src slot target : ℕ)
    → target ≢ 0
    → target < word_mod
    → (base + src / 2 ^ 6 < slot) ⊎ (slot + 8 ≤ base + src / 2 ^ 6)
    → (m' : Mem) × (object_reference_write object_barrier base m src slot target
        ≡ some (m', object_barrier && (m (base + src / 2 ^ 6) / 2 ^ (src / 2 ^ 3 % 8) % 2 == 1)))
      × (load_word m' slot ≡ target)
unfolding object_reference_write object_reference_write_post
object_reference_write_lem object_barrier base m src slot target some_target fits apart =
    let e : (target == 0) ≡ false = ground (arith, some_target) in
    (
      store_word m slot target,
      rw (e, store_bytes-outside 8 m slot target (base + src / 2 ^ 6) apart) refl,
      load_bytes-store_bytes 8 m slot target fits,
    )
