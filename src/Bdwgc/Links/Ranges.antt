-- ===== src/Bdwgc/Links/Ranges.antt =====
-- Which objects the ranges of the client and the sections of the libraries keep alive.
use vmkit_core.Prelude.{
  ℕ, ◌≡◌, ◌≢◌, ◌⊎◌, inl, inr, ◌∙◌, sym, true, List, ◌∷◌, some, arith, Bool-cases,
}
use vmkit_core.Prelude.Sets.{member-insert}
use vmkit_core.Memory.{Mem}
use vmkit_core.Roots.{HeapBounds, ConservativeRoots, Range, same_range, contains, new}
use vmkit_core.Roots.Spans.{InSome, AllMapped, same_range-Decides, add_spans-Scanned}
use vmkit_core.Bdwgc.Links.{scan_vm_specific_roots, gc_add_roots}

module _ (heap : HeapBounds) (m : Mem) where
  AllMapped-gc_add_roots :
      (low high : ℕ) (roots : List Range)
      → low ≢ 0
      → high ≢ 0
      → AllMapped heap m roots
      → AllMapped heap m (gc_add_roots low high roots)
  unfolding gc_add_roots
  AllMapped-gc_add_roots low high roots hl hh h t k =
      let s : Range = record { low = low; high = high } in
      let e = member-insert same_range same_range-Decides roots s t in
      elim (Bool-cases (same_range t s)) [
        | inl b ↦ let q : t ≡ s = same_range-Decides.equal t s b in rw q (hl, hh)
        | inr b ↦ h t (ground (arith, e, b, k))
      ]

  InSome-gc_add_roots :
      (limit low high : ℕ) (roots : List Range) (x : ℕ)
      → (InSome heap m limit (gc_add_roots low high roots) x
          → InSome heap m limit (record { low = low; high = high } ∷ roots) x)
        × (InSome heap m limit (record { low = low; high = high } ∷ roots) x
            → InSome heap m limit (gc_add_roots low high roots) x)
  unfolding gc_add_roots
  InSome-gc_add_roots limit low high roots x =
      let s : Range = record { low = low; high = high } in
      (
        λ (t, k, i). (t, sym (member-insert same_range same_range-Decides roots s t) ∙ k, i),
        λ (t, k, i). (t, member-insert same_range same_range-Decides roots s t ∙ k, i),
      )

  -- After `GC_add_roots`, for sections and ranges whose ends are not null, a collection takes as
  -- roots exactly the objects, found within 256 bytes, that a word of a section, of a range that was
  -- there before, or of the new range refers to.
  pub scan_vm_specific_roots-gc_add_roots :
      (sections roots : List Range) (low high : ℕ)
      → AllMapped heap m sections
      → AllMapped heap m roots
      → low ≢ 0
      → high ≢ 0
      → (r : ConservativeRoots) × (scan_vm_specific_roots heap m sections
            (gc_add_roots low high roots)
          ≡ some r)
        × ((x : ℕ)
            → ((contains r.roots x ≡ true)
                → InSome heap m 256 sections x
                  ⊎ InSome heap m 256 (record { low = low; high = high } ∷ roots) x)
              × (InSome heap m 256 sections x
                    ⊎ InSome heap m 256 (record { low = low; high = high } ∷ roots) x
                  → contains r.roots x ≡ true))
  unfolding scan_vm_specific_roots new
  scan_vm_specific_roots-gc_add_roots sections roots low high hs hr hl hh =
      let fresh = new heap 256 in
      let (r1, e1, (l1, c1)) = add_spans-Scanned heap m sections fresh hs in
      let (r2, e2, (l2, c2)) =
        add_spans-Scanned heap m (gc_add_roots low high roots) r1
          (AllMapped-gc_add_roots low high roots hl hh hr) in
      (
        r2,
        rw e1 e2,
        λ x. (
          λ c. elim ((c2 x).0 c) [
            | inl d ↦ elim ((c1 x).0 d) [ inl f ↦ ground (arith, f) | inr i ↦ inl i ]
            | inr w ↦ inr ((InSome-gc_add_roots 256 low high roots x).0 (rw l1 at w))
          ],
          λ c. (c2 x).1 (elim c [
            | inl i ↦ inl ((c1 x).1 (inr i))
            | inr w ↦ inr (rw l1 ((InSome-gc_add_roots 256 low high roots x).1 w))
          ]),
        ),
      )
