-- ===== src/Heap/Tests.antt =====
-- A mutator with a buffer of 4096 bytes, and an mmtk that allocates from a fixed place.
use native.Mathlib.Nat.{one-le-pow}
use vmkit_core.Align.Rounding.{pow-le}
use vmkit_core.Prelude.Bits.{mod_of_parts}
use vmkit_core.Prelude.{ℕ, ◌*◌, ◌/◌, ◌+◌, ◌-◌, ◌%◌, ◌^◌, ◌≤◌, ◌<◌, ◌≡◌, refl, some, arith}
use vmkit_core.Memory.{load_word}
use vmkit_core.Tlab.Multiples.{multiple_from, multiple_from-AlignsUp}
use vmkit_core.Heap.{Mmtk, Mutator, default, by_tlab, immix, allocate_object}
use vmkit_core.Heap.Paths.{allocate_object-fast}
use vmkit_core.Heap.Slow.{AllocAligns}

-- The addresses are the least that the alignment allows.
abbrev mmtk : Mmtk
mmtk = record {
  raw_align_up = multiple_from;
  alloc = λ s size align offset t. (align - offset % align, t);
  alloc_slow =
      λ s size align offset t. (1024, record t { bump = record { cursor = 2048; limit = 4096 } });
  post_alloc = λ object size t. t;
  selector = immix;
  vo_bit_base = 2 ^ 40;
  max_non_los_default_alloc_bytes = 8192;
  alloc_fastpath = by_tlab;
  vm = record { alignment_value = 0; max_alignment = 32; min_alignment = 8 };
}

abbrev mutator : Mutator
mutator = record {
  mem = λ a. 0;
  tlab = record { cursor = 4096; limit = 8192 };
  bump = record { cursor = 0; limit = 0 };
}

allocate_object-fast_example :
    (object : ℕ) × (u : Mutator) × (allocate_object mmtk 77 24 (2 ^ 4) default mutator
      ≡ some (object, u))
    × (object % 2 ^ 4 ≡ 0)
    × (load_word u.mem (object - 8) ≡ 77)
    × (4096 + 8 ≤ object)
    × (object + 24 ≤ u.tlab.cursor)
    × (u.tlab.cursor ≤ u.tlab.limit)
    × (u.tlab.limit ≡ 8192)
    × (u.bump ≡ mutator.bump)
allocate_object-fast_example =
    allocate_object-fast mmtk multiple_from-AlignsUp 77 24 4 mutator refl (omega arith)
      (omega arith) (omega arith) (omega arith, omega arith) (omega arith) (omega arith)
      (omega arith, omega arith)

rounded : (a offset : ℕ) → 0 < a → (a - offset % a + offset) % a ≡ 0
rounded a offset h =
    let p = mod_of_parts a (offset / a + 1) 0 h in
    let e : (offset / a + 1) * a + 0 ≡ a - offset % a + offset = grind arith in rw e at p

mmtk-AllocAligns : AllocAligns mmtk
mmtk-AllocAligns = record {
  aligned = λ s size k offset t hk. rounded (2 ^ k) offset (one-le-pow k 2 (omega arith));
  inside = λ s size k offset t hk. omega (arith, pow-le k hk);
}
