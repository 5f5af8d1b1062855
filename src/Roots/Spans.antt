-- ===== src/Roots/Spans.antt =====
-- Which objects the scan of several spans adds.
use Prim.Native.Nat.{min, max}
use vmkit_core.Prelude.{
  ℕ, ◌≡◌, ◌≢◌, ◌⊎◌, inl, inr, ◌∙◌, refl, true, List, [], ◌∷◌, some, arith, Bool-cases,
}
use vmkit_core.Prelude.Sets.{Decides, member}
use vmkit_core.Memory.{Mem}
use vmkit_core.Roots.{HeapBounds, ConservativeRoots, Range, same_range, add_spans, contains}
use vmkit_core.Roots.Scan.{InSpan, add_span-contains, add_span-limit}

pub same_range-Decides : Decides same_range
same_range-Decides = record { equal = λ x y h. ground (arith, h); reflexive = λ x. ground arith }

module _ (heap : HeapBounds) (m : Mem) where
  -- Some word of one of the ranges refers to the object.
  abbrev pub InSome : ℕ → List Range → ℕ → Type 0
  InSome limit ss x =
      (s : Range) × (member same_range ss s ≡ true)
      × InSpan heap m limit (heap.align_down (min s.low s.high) 8)
          (heap.align_up (max s.low s.high) 8) x

  -- The ranges are given by addresses that are not null.
  abbrev pub AllMapped : List Range → Type 0
  AllMapped ss = (s : Range) → member same_range ss s ≡ true → (s.low ≢ 0) × (s.high ≢ 0)

  pub AllMapped-cons :
      (s : Range) (ss : List Range) → s.low ≢ 0 → s.high ≢ 0 → AllMapped ss → AllMapped (s ∷ ss)
  AllMapped-cons s ss hl hh h t k = elim (Bool-cases (same_range t s)) [
    | inl b ↦ let q : t ≡ s = same_range-Decides.equal t s b in rw q (hl, hh)
    | inr b ↦ h t (ground (arith, b, k))
  ]

  member-first : (s : Range) (ss : List Range) → member same_range (s ∷ ss) s ≡ true
  member-first s ss = ground (arith, same_range-Decides.reflexive s)

  member-later :
      (s t : Range) (ss : List Range)
      → member same_range ss t ≡ true
      → member same_range (s ∷ ss) t ≡ true
  member-later s t ss h = elim (Bool-cases (same_range t s)) [
    | inl b ↦ ground (arith, b)
    | inr b ↦ ground (arith, b, h)
  ]

  InSome-cons :
      (limit : ℕ) (s : Range) (ss : List Range) (x : ℕ)
      → InSome limit (s ∷ ss) x
      → InSpan heap m limit
          (heap.align_down (min s.low s.high) 8)
          (heap.align_up (max s.low s.high) 8)
          x
        ⊎ InSome limit ss x
  InSome-cons limit s ss x (t, mem, i) = elim (Bool-cases (same_range t s)) [
    | inl b ↦ let q : t ≡ s = same_range-Decides.equal t s b in inl (rw q at i)
    | inr b ↦ inr (t, ground (arith, b, mem), i)
  ]

  -- The objects that a scan of several ranges finds.
  abbrev pub Scanned : List Range → ConservativeRoots → ConservativeRoots → Type 0
  Scanned ss r r' =
      (r'.internal_pointer_limit ≡ r.internal_pointer_limit)
      × ((x : ℕ)
          → ((contains r'.roots x ≡ true)
              → (contains r.roots x ≡ true) ⊎ InSome r.internal_pointer_limit ss x)
            × ((contains r.roots x ≡ true) ⊎ InSome r.internal_pointer_limit ss x
                → contains r'.roots x ≡ true))

  pub add_spans-Scanned :
      (ss : List Range) (r : ConservativeRoots)
      → AllMapped ss
      → (r' : ConservativeRoots) × (add_spans heap m ss r ≡ some r') × Scanned ss r r'
  unfolding add_spans
  add_spans-Scanned [] r h = (
    r,
    refl,
    (refl, λ x. (λ c. inl c, λ c. elim c [ inl d ↦ d | inr (s, e, i) ↦ ground (arith, e) ])),
  )
  add_spans-Scanned (s ∷ ss) r h =
      let (lo, hi) = h s (member-first s ss) in
      let (r1, e1, c1) = add_span-contains heap m s.low s.high r lo hi in
      let l1 = add_span-limit heap m s.low s.high r r1 lo hi e1 in
      let (r2, e2, (l2, c2)) = add_spans-Scanned ss r1 (λ t k. h t (member-later s t ss k)) in
      (
        r2,
        rw e1 e2,
        (
          l2 ∙ l1,
          λ x. (
            λ c. elim ((c2 x).0 c) [
              | inl d ↦ elim ((c1 x).0 d) [ inl d ↦ inl d | inr i ↦ inr (s, member-first s ss, i) ]
              | inr (t, k, i) ↦ inr (t, member-later s t ss k, rw l1 at i)
            ],
            λ c. (c2 x).1 (elim c [
              | inl d ↦ inl ((c1 x).1 (inl d))
              | inr w ↦ elim (InSome-cons r.internal_pointer_limit s ss x w) [
                | inl i ↦ inl ((c1 x).1 (inr i))
                | inr j ↦ inr (rw l1 j)
              ]
            ]),
          ),
        ),
      )
