-- ===== src/Libraries/Tests.antt =====
-- One library with a segment that is read only and one that is writable.
use vmkit_core.Prelude.{ℕ, ◌-◌, ◌+◌, ◌%◌, ◌≡◌, ◌≢◌, refl, true, List, [], ◌∷◌, some, arith}
use Prim.Native.Nat.{min, max}
use vmkit_core.Prelude.Sets.{member}
use vmkit_core.Memory.{Mem}
use vmkit_core.Roots.{HeapBounds, ConservativeRoots, Range, same_range, contains}
use vmkit_core.Roots.Scan.{InSpan}
use vmkit_core.Bdwgc.Links.{scan_vm_specific_roots}
use vmkit_core.Libraries.{
  Info, Callback, Iterates, each_object, segment, dynamic_libraries_sections,
}
use vmkit_core.Libraries.Segments.{AllDescribed, some_object, dynamic_libraries_sections-segments}
use vmkit_core.Libraries.Roots.{scan_vm_specific_roots-segments}

abbrev writable : Range
writable = record { low = 4096; high = 4608 }

abbrev libraries : List Info
libraries =
    record {
      size = 64;
      dlpi_addr = 4000;
      dlpi_phdr =
          record { p_type = 1; p_flags = 5; p_vaddr = 0; p_memsz = 64 }
          ∷ record { p_type = 1; p_flags = 6; p_vaddr = 96; p_memsz = 512 }
          ∷ [];
    }
    ∷ []

abbrev over_libraries : Callback → List Range → List Range
over_libraries callback ranges = each_object callback libraries ranges

over_libraries-Iterates : Iterates over_libraries libraries
over_libraries-Iterates callback ranges = refl

libraries-AllDescribed : AllDescribed libraries
libraries-AllDescribed = (omega arith, tt)

dynamic_libraries_sections-segments_example :
    member same_range (dynamic_libraries_sections over_libraries) writable
    ≡ some_object writable libraries
dynamic_libraries_sections-segments_example =
    dynamic_libraries_sections-segments over_libraries libraries writable over_libraries-Iterates
      libraries-AllDescribed

writable_found : some_object writable libraries ≡ true
unfolding segment
writable_found = refl

abbrev heap : HeapBounds
heap = record {
  starting_heap_address = 4096;
  last_heap_address = 8192;
  find_object_from_internal_pointer = λ pointer limit. some 4104;
  align_down = λ x align. x - x % align;
  align_up = λ x align. x + (align - 1) - (x + (align - 1)) % align;
}

abbrev memory : Mem
memory a = 0

not_null : (s : Range) → some_object s libraries ≡ true → (s.low ≢ 0) × (s.high ≢ 0)
unfolding segment
not_null s h = ground (arith, h)

scan_vm_specific_roots-segments_example :
    (c : ConservativeRoots) × (scan_vm_specific_roots heap memory
        (dynamic_libraries_sections over_libraries)
        []
      ≡ some c)
    × ((s : Range) (x : ℕ)
        → some_object s libraries ≡ true
        → InSpan heap memory 256
            (heap.align_down (min s.low s.high) 8)
            (heap.align_up (max s.low s.high) 8)
            x
        → contains c.roots x ≡ true)
scan_vm_specific_roots-segments_example =
    scan_vm_specific_roots-segments heap memory over_libraries libraries [] over_libraries-Iterates
      libraries-AllDescribed not_null (λ s k. absurd (ground (arith, k)))
