-- ===== src/Tracing/Values/Slots.antt =====
-- Scanning a value for slots and tracing it do the same.
use vmkit_core.Prelude.{
  ℕ, ◌≡◌, refl, sym, ap, ◌∙◌, inl, inr, if◌then◌else◌, ◌==◌, List, [], ◌∷◌, ◌++◌, none, some, arith,
  Bool-cases,
}
use vmkit_core.Tracing.{Tracer, trace_reference}
use vmkit_core.Scanning.{Scanner, visit_slot, visit_slots}
use vmkit_core.Tracing.Values.{
  Value, Values, SlotExtra, to_slot, scan, scan_each, trace_object_at, trace_value, trace_values,
}

-- Values that consist of references to objects and of primitive data.
unfoldable mutual
  pub OnlyReferences : Value → Type 0
  OnlyReferences Value.primitive = Unit
  OnlyReferences (Value.object a) = Unit
  OnlyReferences (Value.vec values) = AllReferences values
  OnlyReferences (Value.array values) = AllReferences values
  OnlyReferences _ = ⊥

  pub AllReferences : Values → Type 0
  AllReferences Values.nil = Unit
  AllReferences (Values.cons x xs) = OnlyReferences x × AllReferences xs

module _ {S : Type 0} (slots : SlotExtra S) (tracer : Tracer S) (vm : Scanner S)
    (at_field : (a : ℕ) → slots.from_vmkit_object a ≡ a)
    (loads : (s : S) (a : ℕ)
      → vm.load s a ≡ (if slots.load s a == 0 then none else some (slots.load s a)))
    (stores : (s : S) (a o : ℕ) → vm.store s a o ≡ slots.store s a o)
    (traces : (o : ℕ) (s : S) → vm.tracer o s ≡ tracer.trace_object o s)
    (unchanged : (s : S) (a : ℕ) → slots.store s a (slots.load s a) ≡ s)
    (keeps : (o : ℕ) (s : S) (a : ℕ)
      → slots.load (tracer.trace_object o s).1 a ≡ slots.load s a) where
  visit_slot-eq-trace_object_at :
      (a : ℕ) (s : S) → trace_object_at slots tracer a s ≡ visit_slot vm a s
  unfolding trace_object_at trace_reference visit_slot
  visit_slot-eq-trace_object_at a s =
      let old = slots.load s a in
      let (new, s') = tracer.trace_object old s in
      let same : slots.store s' a old ≡ s' =
        sym (ap (slots.store s' a) (keeps old s a)) ∙ unchanged s' a in
      elim (Bool-cases (old == 0)) [
        | inl b ↦ ground (arith, b, loads s a)
        | inr b ↦ elim (Bool-cases (new == old)) [
          | inl e ↦
              let q : new ≡ old = ground (arith, e) in
              ground (arith, b, loads s a, traces old s, stores s' a new, e, same)
          | inr n ↦ ground (arith, b, loads s a, traces old s, stores s' a new, n)
        ]
      ]

  visit_slots-append :
      (xs ys : List ℕ) (s : S)
      → visit_slots vm (xs ++ ys) s ≡ visit_slots vm ys (visit_slots vm xs s)
  unfolding visit_slots
  visit_slots-append [] ys s = refl
  visit_slots-append (x ∷ xs) ys s = visit_slots-append xs ys (visit_slot vm x s)

  mutual
    unfolding scan to_slot trace_value OnlyReferences visit_slots

    scanned :
        (v : Value)
        → OnlyReferences v
        → (visited : List ℕ) × (scan slots v ≡ some visited)
          × ((s : S) → trace_value slots tracer v s ≡ some (visit_slots vm visited s))
    scanned Value.primitive h = ([], refl, λ s. refl)
    scanned (Value.object a) h = (
      a ∷ [],
      ap (λ (slot : ℕ). some (slot ∷ [])) (at_field a),
      λ s. ap some (visit_slot-eq-trace_object_at a s),
    )
    scanned (Value.internal_pointer a) h = elim h [ ]
    scanned (Value.fat_internal_pointer a) h = elim h [ ]
    scanned (Value.narrow a) h = elim h [ ]
    scanned (Value.slice values) h = elim h [ ]
    scanned Value.absent h = elim h [ ]
    scanned (Value.present value) h = elim h [ ]
    scanned (Value.boxed value) h = elim h [ ]
    scanned (Value.vec values) h = scanned_each values h
    scanned (Value.array values) h = scanned_each values h

    scanned_each :
        (vs : Values)
        → AllReferences vs
        → (visited : List ℕ) × (scan_each slots vs ≡ some visited)
          × ((s : S) → trace_values slots tracer vs s ≡ some (visit_slots vm visited s))
    scanned_each Values.nil h = ([], refl, λ s. refl)
    scanned_each (Values.cons x xs) h =
        let (first, e, f) = scanned x h.0 in
        let (rest, g, k) = scanned_each xs h.1 in
        (
          first ++ rest,
          rw (e, g) refl,
          λ s. rw (f s, visit_slots-append first rest s) (k (visit_slots vm first s)),
        )

  -- Let slots be the addresses of references, let reads and writes of slots be those of references
  -- (a null reference is no reference to mmtk), let writing a reference that is already there change
  -- nothing, and let the tracer leave the references alone. A value that consists of references,
  -- primitive data, vectors and arrays then has slots, and tracing it does the same to the memory and
  -- to mmtk as visiting these slots, one after the other, in the order of the scan.
  pub trace_value-visit_slots :
      (v : Value)
      → OnlyReferences v
      → (visited : List ℕ) × (scan slots v ≡ some visited)
        × ((s : S) → trace_value slots tracer v s ≡ some (visit_slots vm visited s))
  trace_value-visit_slots v h = scanned v h
