-- ===== src/Libraries/Roots.antt =====
-- What the segments of the libraries keep alive in a collection for BDWGC clients.
use Prim.Native.Nat.{min, max}
use vmkit_core.Prelude.{ℕ, ◌≡◌, ◌≢◌, ◌∙◌, sym, inl, inr, true, List, some}
use vmkit_core.Memory.{Mem}
use vmkit_core.Roots.{HeapBounds, ConservativeRoots, Range, contains, new}
use vmkit_core.Roots.Scan.{InSpan}
use vmkit_core.Roots.Spans.{AllMapped, add_spans-Scanned}
use vmkit_core.Bdwgc.Links.{scan_vm_specific_roots}
use vmkit_core.Libraries.{Info, Callback, Iterates, dynamic_libraries_sections}
use vmkit_core.Libraries.Segments.{AllDescribed, some_object, dynamic_libraries_sections-segments}

module _ (heap : HeapBounds) (m : Mem) where
  -- A collection takes as a root every object, found within 256 bytes, that a word of a loaded and
  -- writable segment of a library refers to. The ends of these segments and of the ranges of the
  -- client are not null, and libc iterates over the objects and describes each in full.
  pub scan_vm_specific_roots-segments :
      (dl_iterate_phdr : Callback → List Range → List Range) (objects : List Info)
      (roots : List Range)
      → Iterates dl_iterate_phdr objects
      → AllDescribed objects
      → ((s : Range) → some_object s objects ≡ true → (s.low ≢ 0) × (s.high ≢ 0))
      → AllMapped heap m roots
      → (c : ConservativeRoots) × (scan_vm_specific_roots heap m
            (dynamic_libraries_sections dl_iterate_phdr)
            roots
          ≡ some c)
        × ((s : Range) (x : ℕ)
            → some_object s objects ≡ true
            → InSpan heap m 256
                (heap.align_down (min s.low s.high) 8)
                (heap.align_up (max s.low s.high) 8)
                x
            → contains c.roots x ≡ true)
  unfolding scan_vm_specific_roots new
  scan_vm_specific_roots-segments dl_iterate_phdr objects roots law whole mapped hr =
      let sections = dynamic_libraries_sections dl_iterate_phdr in
      let found =
        λ (s : Range). dynamic_libraries_sections-segments dl_iterate_phdr objects s law whole in
      let (r1, e1, (l1, c1)) =
        add_spans-Scanned heap m sections (new heap 256) (λ s k. mapped s (sym (found s) ∙ k)) in
      let (r2, e2, (l2, c2)) = add_spans-Scanned heap m roots r1 hr in
      (r2, rw e1 e2, λ s x k i. (c2 x).1 (inl ((c1 x).1 (inr (s, found s ∙ k, i)))))
