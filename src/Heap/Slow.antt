-- ===== src/Heap/Slow.antt =====
-- The paths of an allocation that ask mmtk.
use vmkit_core.Prelude.{ℕ, ◌+◌, ◌-◌, ◌*◌, ◌/◌, ◌%◌, ◌^◌, ◌≤◌, ◌<◌, ◌≡◌, ◌≢◌, some, arith}
use vmkit_core.Prelude.Words.{word_mod, wrap}
use vmkit_core.Align.Rounding.{pow-split}
use native.Mathlib.Nat.{one-le-pow}
use vmkit_core.Prelude.Bits.{mod_of_parts}
use vmkit_core.Tlab.{empty}
use vmkit_core.Heap.{
  Semantics, default, no_bump_pointer, Mutator, Mmtk, flush_tlab, refill_tlab, initialise,
  allocate_with, allocate_slow, allocate_out_of_line, adjust_semantics,
}
use vmkit_core.Heap.Paths.{refill_tlab-flush_tlab}

-- The mutator as mmtk sees it: the whole buffer is with the allocator.
abbrev pub flushed : Mutator → Mutator
flushed t = record t { tlab = empty; bump = t.tlab }

-- For an allocator with a bump pointer and a buffer that is in use: the slow path lets mmtk
-- allocate while the allocator holds the whole buffer, returns the object behind the address that
-- mmtk gives, and leaves the buffer as the allocator's bump pointer is afterwards.
pub allocate_slow-flushed :
    (mmtk : Mmtk) (header size alignment : ℕ) (s : Semantics) (t : Mutator)
    → mmtk.selector ≢ no_bump_pointer
    → t.tlab.cursor ≢ 0
    → let r = mmtk.alloc_slow s size alignment 8 (flushed t) in
      (u : Mutator) × (allocate_slow mmtk header size alignment s t ≡ some (wrap (r.0 + 8), u))
      × (u.tlab ≡ r.1.bump)
      × (u.bump ≡ r.1.bump)
unfolding allocate_slow flush_tlab refill_tlab initialise
allocate_slow-flushed mmtk header size alignment s t sel c =
    let r = mmtk.alloc_slow s size alignment 8 (flushed t) in
    let f = refill_tlab-flush_tlab mmtk t sel c in
    (refill_tlab mmtk (initialise mmtk header r.0 r.1), ground arith, ground arith, ground arith)

multiple_add : (m a b : ℕ) → (a + 0) % m ≡ 0 → b < m → (a + b) % m ≡ b
multiple_add m a b h lt =
    let r = mod_of_parts m (a / m) b lt in
    let y : a + 0 ≡ a = omega arith in
    let z : a % m ≡ 0 = rw y at h in let e : a / m * m + b ≡ a + b = grind (arith, z) in rw e at r

-- `alloc` of mmtk: the address is a multiple of the alignment once the offset is added, and leaves
-- room for a header below 2^64.
pub record AllocAligns (mmtk : Mmtk) : Type 0 where
  pub aligned :
      (s : Semantics) (size k offset : ℕ) (t : Mutator)
      → k < 64
      → ((mmtk.alloc s size (2 ^ k) offset t).0 + offset) % 2 ^ k ≡ 0
  pub inside :
      (s : Semantics) (size k offset : ℕ) (t : Mutator)
      → k < 64
      → (mmtk.alloc s size (2 ^ k) offset t).0 + 8 < word_mod

-- The out-of-line path gives mmtk the offset 0 for the default semantics, while it places the
-- object 8 bytes behind the address: for an alignment of 16 or more, an object below the size of
-- large objects is never aligned, but lies 8 bytes behind a multiple of the alignment.
pub allocate_out_of_line-unaligned :
    (mmtk : Mmtk) (laws : AllocAligns mmtk) (header size k : ℕ) (t : Mutator)
    → mmtk.selector ≢ no_bump_pointer
    → t.tlab.cursor ≢ 0
    → size + 8 < mmtk.max_non_los_default_alloc_bytes
    → (4 ≤ k) × (k < 64)
    → (object : ℕ) × (u : Mutator) × (allocate_out_of_line mmtk header size (2 ^ k) default t
        ≡ some (object, u))
      × (object % 2 ^ k ≡ 8)
unfolding allocate_out_of_line allocate_with adjust_semantics flush_tlab
allocate_out_of_line-unaligned mmtk laws header size k t sel c small hk =
    let bytes = mmtk.raw_align_up (size + 8) (2 ^ k) in
    let r = mmtk.alloc default bytes (2 ^ k) 0 (flushed t) in
    let a = laws.aligned default bytes k 0 (flushed t) hk.1 in
    let i = laws.inside default bytes k 0 (flushed t) hk.1 in
    let p = pow-split (k - 4) 4 k (omega arith) in
    let q = one-le-pow (k - 4) 2 (omega arith) in
    (
      r.0 + 8,
      refill_tlab mmtk (initialise mmtk header r.0 r.1),
      ground arith,
      multiple_add (2 ^ k) r.0 8 a (omega (arith, p, q)),
    )
