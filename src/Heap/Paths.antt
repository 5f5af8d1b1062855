-- ===== src/Heap/Paths.antt =====
-- The fast path of an allocation, and what the slow paths do with the buffer.
use Prim.Native.Nat.{bit_or}
use vmkit_core.Header.{object_ref_offset}
use vmkit_core.Prelude.{
  ℕ, ◌+◌, ◌-◌, ◌/◌, ◌%◌, ◌^◌, ◌≤◌, ◌<◌, ◌≡◌, ◌≢◌, ◌∙◌, refl, some, arith, inl, inr, ◌==◌,
  if◌then◌else◌, Bool-cases,
}
use vmkit_core.Prelude.Words.{word_mod, wrap}
use vmkit_core.Memory.{Mem, put, load_word, store_word, load_bytes_ext, load_bytes-store_bytes}
use vmkit_core.Tlab.{Tlab, empty, allocate}
use vmkit_core.Tlab.Fits.{AlignsUp, allocate-cases}
use vmkit_core.Heap.{
  default, by_tlab, no_bump_pointer, Mutator, Mmtk, set_vo_bit, flush_tlab, refill_tlab, initialise,
  allocate_from_tlab, allocate_object, adjust_semantics,
}

-- For an allocator with a bump pointer and a buffer that is in use: flushing hands the whole
-- buffer to the allocator and leaves none behind, and refilling takes back what the allocator has.
pub refill_tlab-flush_tlab :
    (mmtk : Mmtk) (t : Mutator)
    → mmtk.selector ≢ no_bump_pointer
    → t.tlab.cursor ≢ 0
    → (u : Mutator) × (flush_tlab mmtk t ≡ some u)
      × (u.tlab ≡ empty)
      × (u.bump ≡ t.tlab)
      × (refill_tlab mmtk u ≡ record t { bump = t.tlab })
unfolding flush_tlab refill_tlab
refill_tlab-flush_tlab mmtk t s c =
    (record t { tlab = empty; bump = t.tlab }, ground arith, refl, refl, ground arith)

load_word-put_apart : (m : Mem) (a x v : ℕ) → a + 8 ≤ x → load_word (put m x v) a ≡ load_word m a
load_word-put_apart m a x v h = load_bytes_ext 8 (put m x v) m a a (λ i lt. ground arith)

-- The header survives the valid-object bit, which lies behind the object's header.
load_word-initialise :
    (mmtk : Mmtk) (header x : ℕ) (t : Mutator)
    → header < 2 ^ 64
    → x + 8 ≤ mmtk.vo_bit_base
    → load_word (initialise mmtk header x t).mem x ≡ header
unfolding initialise set_vo_bit
load_word-initialise mmtk header x t hh h =
    let m = store_word t.mem x header in
    let meta = mmtk.vo_bit_base + wrap (x + object_ref_offset) / 2 ^ 6 in
    load_word-put_apart m x meta (bit_or (m meta) (2 ^ (wrap (x + object_ref_offset) / 2 ^ 3 % 8)))
      (omega arith)
    ∙ load_bytes-store_bytes 8 t.mem x header hh

-- An object that fits: for the semantics `Default` with a fast path through the buffer, a size
-- below that of large objects, an alignment `2^k`, and a buffer behind address 0 that has room for
-- the object after any gap, with the valid-object bits behind it: `allocate` serves the object from
-- the buffer. Its address is a multiple of the alignment, its header is the new one, it lies with
-- its header in what was free in the buffer and no longer is, and mmtk's allocator is untouched.
pub allocate_object-fast :
    (mmtk : Mmtk) (up : AlignsUp mmtk.raw_align_up) (header size k : ℕ) (t : Mutator)
    → let bytes = mmtk.raw_align_up (size + 8) (2 ^ k) in
      let end = t.tlab.cursor + 2 ^ k + mmtk.raw_align_up bytes (2 ^ k) in
      mmtk.alloc_fastpath ≡ by_tlab
      → size + 8 < mmtk.max_non_los_default_alloc_bytes
      → k < 64
      → header < 2 ^ 64
      → (size + 8 + 2 ^ k ≤ word_mod) × (bytes + 2 ^ k ≤ word_mod)
      → 0 < t.tlab.cursor
      → end ≤ t.tlab.limit
      → (t.tlab.limit ≤ mmtk.vo_bit_base) × (t.tlab.limit < word_mod)
      → (object : ℕ) × (u : Mutator) × (allocate_object mmtk header size (2 ^ k) default t
          ≡ some (object, u))
        × (object % 2 ^ k ≡ 0)
        × (load_word u.mem (object - 8) ≡ header)
        × (t.tlab.cursor + 8 ≤ object)
        × (object + size ≤ u.tlab.cursor)
        × (u.tlab.cursor ≤ u.tlab.limit)
        × (u.tlab.limit ≡ t.tlab.limit)
        × (u.bump ≡ t.bump)
unfolding allocate_object allocate_from_tlab adjust_semantics initialise
allocate_object-fast mmtk up header size k t fast small hk hh fits pos room ends =
    let bytes = mmtk.raw_align_up (size + 8) (2 ^ k) in
    let total = mmtk.raw_align_up bytes (2 ^ k) in
    let r1 = up.from (size + 8) k hk fits.0 in
    let r2 = up.from bytes k hk fits.1 in
    let (x, least, cases) =
      allocate-cases mmtk.raw_align_up mmtk.vm t.mem t.tlab bytes k 8 hk (omega arith)
        (omega arith) in
    let tlab : Tlab = record { cursor = x + total; limit = t.tlab.limit } in
    let t' = record t { tlab = tlab } in
    let served : allocate mmtk.raw_align_up mmtk.vm t.mem t.tlab bytes (2 ^ k) 8 ≡ (x, tlab) =
      ground (arith, cases, least.near) in
    (
      x + 8,
      initialise mmtk header x t',
      ground (arith, served, fast, small, least.from, least.near),
      least.multiple,
      ground (arith, load_word-initialise mmtk header x t' hh (omega (arith, least.near, r1, r2))),
      omega (arith, least.from),
      omega (arith, r1, r2),
      omega (arith, least.near),
      refl,
      refl,
    )

-- A buffer without a cursor has no limit either, as after `take`.
abbrev pub IsOpenOrEmpty : Mutator → Type 0
IsOpenOrEmpty t = (t.tlab.cursor ≡ 0) → (t.tlab.limit ≡ 0)

-- The mutator without its buffer, which the allocator has if there was one.
abbrev pub emptied : Mutator → Mutator
emptied t =
    if t.tlab.cursor == 0
    then record t { tlab = empty }
    else record t { tlab = empty; bump = t.tlab }

-- For an allocator with a bump pointer, flushing never panics, whether there is a buffer or not.
pub flush_tlab-emptied :
    (mmtk : Mmtk) (t : Mutator)
    → mmtk.selector ≢ no_bump_pointer
    → IsOpenOrEmpty t
    → flush_tlab mmtk t ≡ some (emptied t)
unfolding flush_tlab
flush_tlab-emptied mmtk t s w = elim (Bool-cases (t.tlab.cursor == 0)) [
  | inl b ↦ ground (arith, b)
  | inr b ↦ ground (arith, b)
]
