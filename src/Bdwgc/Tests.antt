-- ===== src/Bdwgc/Tests.antt =====
-- A collector over the heap from 4096 to 8192, in which every address belongs to one object.
use vmkit_core.Prelude.{
  ℕ, ◌+◌, ◌-◌, ◌%◌, ◌^◌, ◌≤◌, ◌<◌, ◌≡◌, ◌⊎◌, refl, Bool, true, false, ◌&&◌, ◌==◌, List, [], ◌∷◌,
  none, some, arith,
}
use vmkit_core.Prelude.Sets.{member}
use vmkit_core.Memory.{Mem, load_word, store_word, load_bytes-store_bytes}
use vmkit_core.Header.Digits.{
  digits, encode, decode-update, decode-encode_apart, decode-bit_or, decode-low, update-lt,
}
use vmkit_core.Tlab.Multiples.{multiple_from, multiple_from-AlignsUp}
use vmkit_core.Heap.{Mmtk, Mutator, by_tlab, immix}
use vmkit_core.Roots.{HeapBounds, Range}
use vmkit_core.Bdwgc.Words.{Encodes}
use vmkit_core.Bdwgc.Registry.{ObjKind, gc_new_kind, Table, new_table, add_entry}
use vmkit_core.Bdwgc.Marking.{Collector, bdwgc_vm, trace, descr_loop}
use vmkit_core.Bdwgc.Marking.Ranges.{words_found}
use vmkit_core.Bdwgc.Marking.Bitmaps.{descr_loop-per_object}
use vmkit_core.Bdwgc.Descriptor.{Bitmap}
use vmkit_core.Object.{bytes_used, hashcode}
use vmkit_core.Object.Hashing.Null.{hashcode-by_vm}
use vmkit_core.Bdwgc.Allocation.{gc_malloc, generic_metadata}
use vmkit_core.Bdwgc.Allocation.Headers.{generic_metadata-lt}
use vmkit_core.Bdwgc.Allocation.Tracing.{gc_malloc-trace}
use vmkit_core.Bdwgc.Links.{DLink, same_link, retain_links}
use vmkit_core.Bdwgc.Links.Weak.{retain_links_lem}
use vmkit_core.Roots.Spans.{AllMapped}

digits-Encodes : Encodes digits encode
digits-Encodes = record {
  decode-encode = λ s n v h l. decode-update s n 0 v l;
  decode-encode_apart = λ s n t k v h a. decode-encode_apart s n t k v a;
  decode-bit_or = decode-bit_or;
  decode-low = decode-low;
  encode-lt = λ s n v h l. update-lt s n 64 0 v h (omega arith);
}

abbrev collector : Collector
collector = record {
  bit_fields = digits;
  address_based_hashing = true;
  raw_align_up = multiple_from;
  find_object_from_internal_pointer = λ p limit. some 4104;
  starting_heap_address = 4096;
  last_heap_address = 8192;
  run_proc = λ p object environment. [];
  obj_kinds = new_table 24;
  mark_procs = new_table 64;
}

abbrev mmtk : Mmtk
mmtk = record {
  raw_align_up = multiple_from;
  alloc = λ s size align offset t. (1024, t);
  alloc_slow = λ s size align offset t. (1024, t);
  post_alloc = λ object size t. t;
  selector = immix;
  vo_bit_base = 2 ^ 40;
  max_non_los_default_alloc_bytes = 8192;
  alloc_fastpath = by_tlab;
  vm = record { alignment_value = 0; max_alignment = 32; min_alignment = 8 };
}

abbrev memory : Mem
memory a = 0

abbrev mutator : Mutator
mutator = record {
  mem = memory;
  tlab = record { cursor = 4096; limit = 8192 };
  bump = record { cursor = 0; limit = 0 };
}

-- An object of 29 bytes has 24 that the collector knows of.
gc_malloc-trace_example :
    (object : ℕ) × (u : Mutator) × (gc_malloc encode mmtk 29 mutator ≡ some (object, u))
    × (object % 8 ≡ 0)
    × (4096 + 8 ≤ object)
    × (object + 29 ≤ u.tlab.cursor)
    × (u.tlab.cursor ≤ 8192)
    × (bytes_used (bdwgc_vm collector) u.mem object ≡ some 32)
    × ((fuel : ℕ)
        → trace collector fuel u.mem object ≡ some (words_found collector u.mem (object - 8) 4))
gc_malloc-trace_example =
    gc_malloc-trace collector encode digits-Encodes multiple_from-AlignsUp mmtk
      multiple_from-AlignsUp 29 mutator refl (omega arith) (omega arith) (omega arith) (omega arith)
      (omega arith) (omega arith, omega arith)

descr_loop-per_object_example : descr_loop collector 100 memory 4104 19 ≡ none
descr_loop-per_object_example =
    descr_loop-per_object collector 100 memory 4104 19 refl (omega arith)

abbrev two_kinds : Table ℕ
two_kinds = new_table 2

abbrev links : List DLink
links = record { object = 4104; link = 64 } ∷ record { object = 5000; link = 68 } ∷ []

abbrev alive : ℕ → Bool
alive object = object == 5000

retain_links_lem_example :
    let r = retain_links alive memory links in
    ((l : DLink) → member same_link r.1 l ≡ member same_link links l && alive l.object)
    × ((l : DLink)
        → member same_link links l ≡ true
        → alive l.object ≡ false
        → load_word r.0 l.link ≡ 0)
    × ((x : ℕ)
        → ((l : DLink)
            → member same_link links l ≡ true
            → alive l.object ≡ false
            → (x < l.link) ⊎ (l.link + 8 ≤ x))
        → r.0 x ≡ memory x)
retain_links_lem_example = retain_links_lem alive memory links

abbrev heap : HeapBounds
heap = record {
  starting_heap_address = 4096;
  last_heap_address = 8192;
  find_object_from_internal_pointer = λ pointer limit. some 4104;
  align_down = λ x align. x - x % align;
  align_up = λ x align. x + (align - 1) - (x + (align - 1)) % align;
}

abbrev sections : List Range
sections = record { low = 64; high = 128 } ∷ []

sections-AllMapped : AllMapped heap memory sections
sections-AllMapped s h = (ground (arith, h), ground (arith, h))

-- Words 0 and 2 of an object hold pointers, word 1 does not.
abbrev with_hole : Bitmap
with_hole i = 5

-- Without address-based hashing.
abbrev by_vm : Collector
by_vm = record collector { address_based_hashing = false }

hash_of : hashcode (bdwgc_vm by_vm) memory 4104 ≡ some (4104, memory)
hash_of = hashcode-by_vm (bdwgc_vm by_vm) memory 4104 refl

-- One kind, with a descriptor of three words.
one_kind : (u : Table ObjKind) × (gc_new_kind 24 0 0 (new_table 24) ≡ some (0, u))
unfolding gc_new_kind add_entry new_table
one_kind = (_, refl)

abbrev typed : Collector
typed = record collector { obj_kinds = one_kind.0 }

abbrev typed_memory : Mem
typed_memory = store_word memory 4096 (generic_metadata encode 40 0)

typed_header : load_word typed_memory 4096 ≡ generic_metadata encode 40 0
typed_header =
    load_bytes-store_bytes 8 memory 4096 (generic_metadata encode 40 0)
      (generic_metadata-lt digits encode digits-Encodes 40 0 (omega arith) (omega arith))
