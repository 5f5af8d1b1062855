-- ===== src/Roots/Scan.antt =====
-- Which objects a scan of a span adds.
use Prim.Native.Nat.{min, max}
use vmkit_core.Prelude.{
  ℕ, zero, suc, ◌+◌, ◌-◌, ◌*◌, ◌≤◌, ◌<◌, ◌≡◌, ◌≢◌, ◌⊎◌, inl, inr, true, some, arith, Option-cases,
  Bool-cases, ltb, refl, if◌then◌else◌,
}
use vmkit_core.Memory.{Mem, load_word}
use vmkit_core.Roots.{HeapBounds, ConservativeRoots, contains, add_pointer, span_loop, add_span}

module _ (heap : HeapBounds) where
  -- The word points into the heap, and mmtk finds the object there.
  abbrev pub RefersTo : ℕ → ℕ → ℕ → Type 0
  RefersTo limit pointer object =
      (heap.starting_heap_address ≤ pointer)
      × (pointer ≤ heap.last_heap_address)
      × (heap.find_object_from_internal_pointer pointer limit ≡ some object)

  add_pointer-limit :
      (r : ConservativeRoots) (p : ℕ)
      → (add_pointer heap r p).internal_pointer_limit ≡ r.internal_pointer_limit
  unfolding add_pointer
  add_pointer-limit r p =
      elim (Option-cases (heap.find_object_from_internal_pointer p r.internal_pointer_limit)) [
        | inl o ↦ ground (arith, o)
        | inr (s, o) ↦ ground (arith, o)
      ]

  add_pointer-keeps :
      (r : ConservativeRoots) (p x : ℕ)
      → contains r.roots x ≡ true
      → contains (add_pointer heap r p).roots x ≡ true
  unfolding add_pointer
  add_pointer-keeps r p x h =
      elim (Option-cases (heap.find_object_from_internal_pointer p r.internal_pointer_limit)) [
        | inl o ↦ ground (arith, o)
        | inr (s, o) ↦ ground (arith, o)
      ]

  add_pointer-adds :
      (r : ConservativeRoots) (p x : ℕ)
      → RefersTo r.internal_pointer_limit p x
      → contains (add_pointer heap r p).roots x ≡ true
  unfolding add_pointer
  add_pointer-adds r p x h = ground arith

  add_pointer-only :
      (r : ConservativeRoots) (p x : ℕ)
      → contains (add_pointer heap r p).roots x ≡ true
      → (contains r.roots x ≡ true) ⊎ RefersTo r.internal_pointer_limit p x
  unfolding add_pointer
  add_pointer-only r p x h =
      elim (Option-cases (heap.find_object_from_internal_pointer p r.internal_pointer_limit)) [
        | inl o ↦ ground (arith, o)
        | inr (s, o) ↦ ground (arith, o)
      ]

  -- Some word of the span refers to the object.
  abbrev pub InSpan : Mem → ℕ → ℕ → ℕ → ℕ → Type 0
  InSpan m limit start end x =
      (i : ℕ) × (start + 8 * i < end) × RefersTo limit (load_word m (start + 8 * i)) x

  InSpan-later :
      (m : Mem) (limit current end x : ℕ)
      → InSpan m limit (current + 8) end x
      → InSpan m limit current end x
  InSpan-later m limit current end x h =
      let e : current + 8 + 8 * h.0 ≡ current + 8 * suc (h.0) = omega arith in
      (suc (h.0), omega (arith, h.1), rw e at h.2)

  InSpan-first :
      (m : Mem) (limit current end x : ℕ)
      → current < end
      → RefersTo limit (load_word m current) x
      → InSpan m limit current end x
  InSpan-first m limit current end x lt h =
      let e : current + 8 * 0 ≡ current = omega arith in (0, omega arith, rw e h)

  span_loop-only :
      (fuel : ℕ) (m : Mem) (current end : ℕ) (r : ConservativeRoots) (x : ℕ)
      → contains (span_loop heap fuel m current end r).roots x ≡ true
      → (contains r.roots x ≡ true) ⊎ InSpan m r.internal_pointer_limit current end x
  unfolding span_loop
  span_loop-only zero m current end r x h = inl h
  span_loop-only (suc fuel) m current end r x h =
      let w = load_word m current in
      let u = add_pointer heap r w in
      elim (Bool-cases (ltb current end)) [
        | inr b ↦ ground (arith, b)
        | inl b ↦ elim (span_loop-only fuel m (current + 8) end u x (ground (arith, b))) [
          | inl c ↦ elim (add_pointer-only r w x c) [
            | inl d ↦ inl d
            | inr d ↦
                inr (InSpan-first m r.internal_pointer_limit current end x (ground (arith, b)) d)
          ]
          | inr c ↦
              let d : InSpan m r.internal_pointer_limit (current + 8) end x =
                rw (add_pointer-limit r w) at c in
              inr (InSpan-later m r.internal_pointer_limit current end x d)
        ]
      ]

  span_loop-keeps :
      (fuel : ℕ) (m : Mem) (current end : ℕ) (r : ConservativeRoots) (x : ℕ)
      → contains r.roots x ≡ true
      → contains (span_loop heap fuel m current end r).roots x ≡ true
  unfolding span_loop
  span_loop-keeps zero m current end r x h = h
  span_loop-keeps (suc fuel) m current end r x h = ground (
    arith,
    add_pointer-keeps r (load_word m current) x h,
    span_loop-keeps fuel m (current + 8) end (add_pointer heap r (load_word m current)) x,
  )

  span_loop-adds :
      (fuel : ℕ) (m : Mem) (current end : ℕ) (r : ConservativeRoots) (x i : ℕ)
      → end - current ≤ fuel
      → current + 8 * i < end
      → RefersTo r.internal_pointer_limit (load_word m (current + 8 * i)) x
      → contains (span_loop heap fuel m current end r).roots x ≡ true
  unfolding span_loop
  span_loop-adds zero m current end r x i hf hi h = absurd (omega arith)
  span_loop-adds (suc fuel) m current end r x zero hf hi h =
      let u = add_pointer heap r (load_word m current) in
      let e : current + 8 * 0 ≡ current = omega arith in
      let a = add_pointer-adds r (load_word m current) x (rw e at h) in
      ground (arith, span_loop-keeps fuel m (current + 8) end u x a)
  span_loop-adds (suc fuel) m current end r x (suc i) hf hi h =
      let u = add_pointer heap r (load_word m current) in
      let e : current + 8 * suc i ≡ current + 8 + 8 * i = omega arith in
      let l = add_pointer-limit r (load_word m current) in
      let a =
        span_loop-adds fuel m (current + 8) end u x i (omega arith) (omega arith)
          (rw l (rw e at h)) in
      ground (arith, a)

  span_loop-limit :
      (fuel : ℕ) (m : Mem) (current end : ℕ) (r : ConservativeRoots)
      → (span_loop heap fuel m current end r).internal_pointer_limit ≡ r.internal_pointer_limit
  unfolding span_loop
  span_loop-limit zero m current end r = refl
  span_loop-limit (suc fuel) m current end r =
      let u = add_pointer heap r (load_word m current) in
      elim (Bool-cases (ltb current end)) [
        | inl b ↦ ground (
          arith,
          b,
          add_pointer-limit r (load_word m current),
          span_loop-limit fuel m (current + 8) end u,
        )
        | inr b ↦ ground (arith, b)
      ]

  -- A span does not change the limit for internal pointers.
  pub add_span-limit :
      (m : Mem) (start end : ℕ) (r r' : ConservativeRoots)
      → start ≢ 0
      → end ≢ 0
      → add_span heap m start end r ≡ some r'
      → r'.internal_pointer_limit ≡ r.internal_pointer_limit
  unfolding add_span
  add_span-limit m start end r r' hs he h =
      let from = heap.align_down (if ltb end start then end else start) 8 in
      let to = heap.align_up (if ltb end start then start else end) 8 in
      ground (arith, h, span_loop-limit (to - from) m from to r)

  -- For two addresses that are not null, in either order, the scan adds to the roots exactly the
  -- objects that some word between the aligned ends of the span refers to, and keeps those that
  -- were there.
  pub add_span-contains :
      (m : Mem) (start end : ℕ) (r : ConservativeRoots)
      → start ≢ 0
      → end ≢ 0
      → let from = heap.align_down (min start end) 8 in
        let to = heap.align_up (max start end) 8 in
        (r' : ConservativeRoots) × (add_span heap m start end r ≡ some r')
        × ((x : ℕ)
            → ((contains r'.roots x ≡ true)
                → (contains r.roots x ≡ true) ⊎ InSpan m r.internal_pointer_limit from to x)
              × ((contains r.roots x ≡ true) ⊎ InSpan m r.internal_pointer_limit from to x
                  → contains r'.roots x ≡ true))
  unfolding add_span
  add_span-contains m start end r hs he =
      let from = heap.align_down (min start end) 8 in
      let to = heap.align_up (max start end) 8 in
      (
        span_loop heap (to - from) m from to r,
        scanned,
        λ x. (
          span_loop-only (to - from) m from to r x,
          λ h. elim h [
            | inl c ↦ span_loop-keeps (to - from) m from to r x c
            | inr (i, lt, h) ↦ span_loop-adds (to - from) m from to r x i (omega arith) lt h
          ],
        ),
      )
    where
      scanned :
          add_span heap m start end r
          ≡ some (
              span_loop heap
                (heap.align_up (max start end) 8 - heap.align_down (min start end) 8)
                m
                (heap.align_down (min start end) 8)
                (heap.align_up (max start end) 8)
                r)
      scanned = elim (Bool-cases (ltb end start)) [
        | inl b ↦
            let e : min start end ≡ end = ground (arith, b) in
            let f : max start end ≡ start = ground (arith, b) in rw (e, f) (ground (arith, b))
        | inr b ↦
            let e : min start end ≡ start = ground (arith, b) in
            let f : max start end ≡ end = ground (arith, b) in rw (e, f) (ground (arith, b))
      ]
