-- ===== src/Scanning/Objects.antt =====
-- Scanning the slots of an object against tracing its edges.
use vmkit_core.Prelude.{
  ℕ, ◌≡◌, ◌≢◌, ◌∙◌, ◌⊎◌, refl, sym, ap, subst, inl, inr, Bool, true, false, not, ◌&&◌, ◌||◌,
  if◌then◌else◌, ◌==◌, List, [], ◌∷◌, Option, none, some, arith, Bool-cases, Option-cases,
}
use vmkit_core.Scanning.{
  TraceCallback, scan_slots, trace_object, no_trace, Scanner, scan_object, visit_slot, visit_slots,
  trace_metadata, scan_object_and_trace_edges, support_slot_enqueuing, is_some,
}

-- The slots that a callback finds.
abbrev pub slots_of : {S : Type 0} → TraceCallback S → S → ℕ → List ℕ
slots_of (scan_slots fun) = fun
slots_of (trace_object fun) = λ s object. []
slots_of no_trace = λ s object. []

module _ {S : Type 0} (vm : Scanner S) where
  -- The slot of the metadata of an object agrees with its metadata: it holds the metadata's object,
  -- a store of the traced object sets the metadata if it is another one and otherwise changes
  -- nothing; and the callback finds the same slots after the metadata was traced.
  pub record IsCoherent (s : S) (object : ℕ) : Type 0 where
    pub holds :
        (slot : ℕ)
        → (vm.metadata s object).to_slot ≡ some slot
        → vm.load s slot ≡ (vm.metadata s object).to_object_reference
    pub sets :
        (slot old : ℕ)
        → (vm.metadata s object).to_slot ≡ some slot
        → (vm.metadata s object).to_object_reference ≡ some old
        → let (new, s') = vm.tracer old s in
          new ≢ old → vm.store s' slot new ≡ vm.set_metadata s' object new
    pub keeps :
        (slot old : ℕ)
        → (vm.metadata s object).to_slot ≡ some slot
        → (vm.metadata s object).to_object_reference ≡ some old
        → let (new, s') = vm.tracer old s in new ≡ old → vm.store s' slot new ≡ s'
    pub same_slots :
        slots_of
          (vm.metadata s object).trace
          (trace_metadata vm (vm.metadata s object) s object)
          object
        ≡ slots_of (vm.metadata s object).trace s object

  test-cases :
      (always is_obj : Bool) (t : TraceCallback S) (slot : Option ℕ)
      → (if always
          then false
          else (elim t [ scan_slots _ ↦ true | _ ↦ false ]) && (not is_obj || is_some slot))
        ≡ true
      → (fun : S → ℕ → List ℕ) × (t ≡ scan_slots fun)
        × ((is_obj ≡ false) ⊎ ((is_obj ≡ true) × (x : ℕ) × (slot ≡ some x)))
  test-cases true is_obj t slot h = ground (arith, h)
  test-cases false is_obj (trace_object fun) slot h = ground (arith, h)
  test-cases false is_obj no_trace slot h = ground (arith, h)
  test-cases false false (scan_slots fun) slot h = (fun, refl, inl refl)
  test-cases false true (scan_slots fun) none h = ground (arith, h)
  test-cases false true (scan_slots fun) (some x) h = (fun, refl, inr (refl, x, refl))

  supported :
      (s : S) (object : ℕ)
      → support_slot_enqueuing vm s object ≡ true
      → (fun : S → ℕ → List ℕ) × ((vm.metadata s object).trace ≡ scan_slots fun)
        × (((vm.metadata s object).is_object ≡ false)
            ⊎ (((vm.metadata s object).is_object ≡ true)
                × (slot : ℕ) × ((vm.metadata s object).to_slot ≡ some slot)))
  unfolding support_slot_enqueuing
  supported s object h =
      let meta = vm.metadata s object in
      test-cases vm.always_trace meta.is_object meta.trace meta.to_slot h

  -- The visit of the slot of the metadata is the tracing of the metadata.
  visit_slot-trace_metadata :
      (s : S) (object slot : ℕ)
      → IsCoherent s object
      → (vm.metadata s object).is_object ≡ true
      → (vm.metadata s object).to_slot ≡ some slot
      → visit_slot vm slot s ≡ trace_metadata vm (vm.metadata s object) s object
  unfolding visit_slot trace_metadata
  visit_slot-trace_metadata s object slot c is_obj sl =
      let meta = vm.metadata s object in
      let l = c.holds slot sl in
      elim (Option-cases meta.to_object_reference) [
        | inl r ↦ rw (visit_slot, l, is_obj, r) refl
        | inr (old, r) ↦
            let new = (vm.tracer old s).0 in
            let s' = (vm.tracer old s).1 in
            elim (Bool-cases (new == old)) [
              | inl e ↦
                  let q : new ≡ old = ground (arith, e) in
                  rw (visit_slot, l, is_obj, r, e) (c.keeps slot old sl r q)
              | inr e ↦
                  let ne : new ≢ old = λ k. ground (arith, e) in
                  rw (visit_slot, l, is_obj, r, e) (c.sets slot old sl r ne)
            ]
      ]

  no_metadata :
      (s : S) (object : ℕ)
      → (vm.metadata s object).is_object ≡ false
      → trace_metadata vm (vm.metadata s object) s object ≡ s
  unfolding trace_metadata
  no_metadata s object b = rw b refl

  -- Tracing the edges of an object whose slots can be scanned.
  trace_edges-slots :
      (s : S) (object : ℕ) (fun : S → ℕ → List ℕ)
      → (vm.metadata s object).trace ≡ scan_slots fun
      → IsCoherent s object
      → scan_object_and_trace_edges vm s object
        ≡ visit_slots vm (fun s object) (trace_metadata vm (vm.metadata s object) s object)
  unfolding scan_object_and_trace_edges
  trace_edges-slots s object fun t c =
      rw (scan_object_and_trace_edges, t)
        (ap (λ (xs : List ℕ). visit_slots vm xs (trace_metadata vm (vm.metadata s object) s object))
          (subst
            (λ k.
              slots_of k (trace_metadata vm (vm.metadata s object) s object) object
              ≡ slots_of k s object)
            t c.same_slots))

  -- For an object that mmtk may scan by its slots, and whose metadata is coherent: the scan does not
  -- panic, and visiting its slots one after the other leaves the same state as tracing the edges of
  -- the object.
  pub scan_object-scan_object_and_trace_edges :
      (s : S) (object : ℕ)
      → support_slot_enqueuing vm s object ≡ true
      → IsCoherent s object
      → (slots : List ℕ) × (scan_object vm s object ≡ some slots)
        × (visit_slots vm slots s ≡ scan_object_and_trace_edges vm s object)
  unfolding scan_object visit_slots
  scan_object-scan_object_and_trace_edges s object h c =
      let (fun, t, cases) = supported s object h in by_cases fun t cases
    where
      by_cases :
          (fun : S → ℕ → List ℕ)
          → (vm.metadata s object).trace ≡ scan_slots fun
          → ((vm.metadata s object).is_object ≡ false)
            ⊎ (((vm.metadata s object).is_object ≡ true)
                × (slot : ℕ) × ((vm.metadata s object).to_slot ≡ some slot))
          → (slots : List ℕ) × (scan_object vm s object ≡ some slots)
            × (visit_slots vm slots s ≡ scan_object_and_trace_edges vm s object)
      by_cases fun t (inl b) = (
        fun s object,
        rw (scan_object, b, t) refl,
        ap (λ (u : S). visit_slots vm (fun s object) u) (sym (no_metadata s object b))
            ∙ sym (trace_edges-slots s object fun t c),
      )
      by_cases fun t (inr (b, slot, sl)) = (
        slot ∷ fun s object,
        rw (scan_object, b, sl, t) refl,
        ap (λ (u : S). visit_slots vm (fun s object) u)
              (visit_slot-trace_metadata s object slot c b sl)
            ∙ sym (trace_edges-slots s object fun t c),
      )
