-- ===== src/Heap/Manage/Tests.antt =====
-- A value of eight bytes, moved to the heap by the mutator of the tests of the heap.
use vmkit_core.Prelude.{ℕ, ◌+◌, ◌-◌, ◌%◌, ◌^◌, ◌≤◌, ◌≡◌, refl, some, arith}
use vmkit_core.Memory.{load_word}
use vmkit_core.Tlab.Multiples.{multiple_from, multiple_from-AlignsUp}
use vmkit_core.Heap.{Mmtk, Mutator, by_tlab, immix}
use vmkit_core.Heap.Manage.{Managed, as_ref, manage}
use vmkit_core.Heap.Manage.Stored.{manage-fast}

abbrev mmtk : Mmtk
mmtk = record {
  raw_align_up = multiple_from;
  alloc = λ s size align offset t. (1024, t);
  alloc_slow = λ s size align offset t. (1024, t);
  post_alloc = λ object size t. t;
  selector = immix;
  vo_bit_base = 2 ^ 40;
  max_non_los_default_alloc_bytes = 8192;
  alloc_fastpath = by_tlab;
  vm = record { alignment_value = 0; max_alignment = 32; min_alignment = 8 };
}

abbrev mutator : Mutator
mutator = record {
  mem = λ a. 0;
  tlab = record { cursor = 4096; limit = 8192 };
  bump = record { cursor = 0; limit = 0 };
}

abbrev counter : Managed
counter = record { size_of = 8; align_of = 2 ^ 3; header = λ value. 77; static_header = 77 }

manage-fast_example :
    (ptr : ℕ) × (u : Mutator) × (manage mmtk counter 123456 24 mutator ≡ some (ptr, u))
    × (ptr % 2 ^ 3 ≡ 0)
    × (as_ref counter u.mem ptr ≡ 123456)
    × (load_word u.mem (ptr - 8) ≡ 77)
    × (4096 + 8 ≤ ptr)
    × (ptr + 24 ≤ u.tlab.cursor)
    × (u.tlab.cursor ≤ 8192)
manage-fast_example =
    manage-fast mmtk multiple_from-AlignsUp counter 123456 24 3 mutator refl (omega arith)
      (omega arith) refl (omega arith) (omega arith) (omega arith) (omega arith, omega arith)
      (omega arith) (omega arith) (omega arith, omega arith)
