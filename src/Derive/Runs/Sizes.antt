-- ===== src/Derive/Runs/Sizes.antt =====
-- The sizes and alignments that objects of a deriving type have in the object model.
use vmkit_core.Prelude.{
  ℕ, ◌+◌, ◌*◌, ◌≡◌, ◌∙◌, ap, refl, inl, inr, false, if◌then◌else◌, ◌==◌, Option, none, some, arith,
  Option-cases,
}
use vmkit_core.Prelude.Words.{wrap}
use vmkit_core.Memory.{Mem}
use vmkit_core.Header.{metadata}
use vmkit_core.Object
use vmkit_core.Object.{ObjectVm, object_gc_metadata, hashcode_overhead, bytes_used}
use vmkit_core.Derive.{Syn, ArrayLike, ObjectSize, ObjectAlignment, GcMetadata, Structure}
use vmkit_core.Derive.Outcome.{ok}
use vmkit_core.Derive.Attributes.{find_arraylike, find_gcmetadata}
use vmkit_core.Derive.Output.Emitted.{derive_gcmetadata-emit, derive_gcmetadata-emit_of, emit-parts}
use vmkit_core.Derive.Output as Emission
use vmkit_core.Derive.Output.{
  Filter, Output, Access, ComputeSize, access, trace_code, compute_size, emit, derive_gcmetadata,
  instance_size,
}
use vmkit_core.Derive.Runs.{
  Meaning, gc_metadata, access_value, instance_size_value, compute_size_value, alignment_value,
}

module _ {syn : Syn} (meaning : Meaning syn) where
  -- The length that the attributes give: by the getter, or else by the field.
  abbrev pub declared_length : ArrayLike syn → Mem → ℕ → ℕ
  declared_length a m obj = elim a.length_getter [
    | some e ↦ meaning.compute e m obj
    | none ↦ elim a.length_field [ some name ↦ meaning.read_field name m obj | none ↦ 0 ]
  ]

  -- The size of an object less its header that the attributes declare: an expression that computes it;
  -- or, for an `arraylike`, the type and its elements; or the constant that is given; or the type.
  abbrev pub declared_size : Option (ArrayLike syn) → ObjectSize syn → Mem → ℕ → ℕ
  declared_size array (ObjectSize.compute e) m obj = meaning.compute e m obj
  declared_size (some a) _ m obj =
      wrap (meaning.size_of_self + wrap (declared_length a m obj * meaning.size_of a.element_type))
  declared_size none (ObjectSize.size e) m obj = meaning.constant e
  declared_size none ObjectSize.auto m obj = meaning.size_of_self

  -- The two terms that the object model adds.
  abbrev sizes : Object.GcMetadata → Mem → ℕ → ℕ
  sizes g m obj = g.instance_size + (elim g.compute_size [ some f ↦ f m obj | none ↦ 0 ])

  pub access-length :
      (a : ArrayLike syn) (c : Access syn) (m : Mem) (obj : ℕ)
      → access syn a.length_getter a.length_field ≡ some c
      → access_value meaning c m obj ≡ declared_length a m obj
  unfolding access access_value
  access-length a c m obj e = ground arith

  array-sizes :
      (a : ArrayLike syn) (c : ComputeSize syn) (m : Mem) (obj : ℕ)
      → compute_size syn (some a) ObjectSize.auto ≡ some c
      → (elim (compute_size_value meaning c) [ some f ↦ f m obj | none ↦ 0 ])
        ≡ declared_size (some a) ObjectSize.auto m obj
  unfolding compute_size compute_size_value
  array-sizes a c m obj e = elim (Option-cases (access syn a.length_getter a.length_field)) [
    | inl n ↦ absurd (ground (arith, e, n))
    | inr (l, n) ↦
        let q : c ≡ ComputeSize.of_elements l a.element_type = ground (arith, e, n) in
        ground (arith, q, access-length a l m obj n)
  ]

  -- The terms for the emitted fragments add up to the size that is declared.
  parts-sizes :
      (array : Option (ArrayLike syn)) (declared : ObjectSize syn) (c : ComputeSize syn) (m : Mem)
      (obj : ℕ)
      → compute_size syn array declared ≡ some c
      → instance_size_value meaning (instance_size syn array declared)
          + (elim (compute_size_value meaning c) [ some f ↦ f m obj | none ↦ 0 ])
        ≡ declared_size array declared m obj
  unfolding compute_size instance_size instance_size_value compute_size_value
  parts-sizes none ObjectSize.auto c m obj e = ground (arith, e)
  parts-sizes none (ObjectSize.size x) c m obj e = ground (arith, e)
  parts-sizes none (ObjectSize.compute x) c m obj e = ground (arith, e)
  parts-sizes (some a) (ObjectSize.compute x) c m obj e = ground (arith, e)
  parts-sizes (some a) ObjectSize.auto c m obj e = omega (arith, array-sizes a c m obj e)
  parts-sizes (some a) (ObjectSize.size x) c m obj e = omega (arith, array-sizes a c m obj e)

  wrapped :
      (overhead i c d : ℕ)
      → i + c ≡ d
      → wrap (wrap (wrap (overhead + i) + c) + 8) ≡ wrap (overhead + d + 8)
  wrapped overhead i c d h = omega (arith, h)

  bytes_used-sum :
      (vm : ObjectVm) (g : Object.GcMetadata) (m : Mem) (obj bits overhead : ℕ)
      → metadata vm.bit_fields vm.address_based_hashing m obj ≡ some bits
      → vm.gc_metadata bits ≡ g
      → hashcode_overhead vm m obj false ≡ some overhead
      → bytes_used vm m obj
        ≡ some (
            vm.raw_align_up
              (wrap (
                wrap (
                  wrap (overhead + g.instance_size)
                  + (elim g.compute_size [ some f ↦ f m obj | none ↦ 0 ]))
                + 8))
              8)
  unfolding bytes_used hashcode_overhead
  bytes_used-sum vm g m obj bits overhead em ev eh = ground (arith, em, ev, eh)

  -- In the object model, an object whose metadata is the derived one takes the size that the
  -- attributes of its type declare, with its header and the slot of its hash code, as a word of 64
  -- bits in which the sum wraps, aligned.
  pub bytes_used-derived :
      (vm : ObjectVm) (filter : Filter) (s : Structure syn) (o : Output syn) (gc : GcMetadata syn)
      (array : Option (ArrayLike syn)) (m : Mem) (obj bits overhead : ℕ)
      → find_gcmetadata syn s.attrs ≡ ok gc
      → find_arraylike syn s.attrs ≡ ok array
      → derive_gcmetadata syn filter s ≡ some (ok o)
      → metadata vm.bit_fields vm.address_based_hashing m obj ≡ some bits
      → vm.gc_metadata bits ≡ gc_metadata meaning o
      → hashcode_overhead vm m obj false ≡ some overhead
      → bytes_used vm m obj
        ≡ some (vm.raw_align_up (wrap (overhead + declared_size array gc.size m obj + 8)) 8)
  unfolding gc_metadata
  bytes_used-derived vm filter s o gc array m obj bits overhead eg ea e em ev eh =
      let (_, pi, pc, _) =
        emit-parts filter s.variants array gc o
          (derive_gcmetadata-emit_of filter s o gc array eg ea e) in
      let q = parts-sizes array gc.size o.compute_size m obj pc in
      bytes_used-sum vm (gc_metadata meaning o) m obj bits overhead em ev eh
      ∙ ap (λ k. some (vm.raw_align_up k 8)) (rw pi (wrapped overhead _ _ _ q))

  alignment-constant :
      (vm : ObjectVm) (g : Object.GcMetadata) (m : Mem) (obj bits : ℕ)
      → metadata vm.bit_fields vm.address_based_hashing m obj ≡ some bits
      → vm.gc_metadata bits ≡ g
      → g.compute_alignment ≡ none
      → Object.alignment vm m obj
        ≡ some (if g.alignment == 0 then vm.max_alignment else g.alignment)
  unfolding Object.alignment
  alignment-constant vm g m obj bits em ev en = ground (arith, em, ev, en)

  declared_alignment :
      (vm : ObjectVm) (emitted : Emission.Alignment syn) (a : ObjectAlignment syn)
      → emitted ≡ Emission.alignment syn a
      → (if alignment_value meaning emitted == 0
          then vm.max_alignment
          else alignment_value meaning emitted)
        ≡ (elim a [
          | ObjectAlignment.auto ↦
              if meaning.align_of_self == 0 then vm.max_alignment else meaning.align_of_self
          | ObjectAlignment.const e ↦
              if meaning.constant e == 0 then vm.max_alignment else meaning.constant e
          | ObjectAlignment.compute e ↦ vm.max_alignment
        ])
  unfolding Emission.alignment alignment_value
  declared_alignment vm emitted ObjectAlignment.auto h = rw h refl
  declared_alignment vm emitted (ObjectAlignment.const e) h = rw h refl
  declared_alignment vm emitted (ObjectAlignment.compute e) h = rw h refl

  -- In the object model, an object whose metadata is the derived one has the alignment that the
  -- attributes give as a constant, or else that of the type, unless it is 0; but for an alignment that
  -- is given as `align = expression` it has the greatest alignment, whatever the expression is.
  pub alignment-derived :
      (vm : ObjectVm) (filter : Filter) (s : Structure syn) (o : Output syn) (gc : GcMetadata syn)
      (m : Mem) (obj bits : ℕ)
      → find_gcmetadata syn s.attrs ≡ ok gc
      → derive_gcmetadata syn filter s ≡ some (ok o)
      → metadata vm.bit_fields vm.address_based_hashing m obj ≡ some bits
      → vm.gc_metadata bits ≡ gc_metadata meaning o
      → Object.alignment vm m obj
        ≡ some (elim gc.alignment [
          | ObjectAlignment.auto ↦
              if meaning.align_of_self == 0 then vm.max_alignment else meaning.align_of_self
          | ObjectAlignment.const e ↦
              if meaning.constant e == 0 then vm.max_alignment else meaning.constant e
          | ObjectAlignment.compute e ↦ vm.max_alignment
        ])
  unfolding gc_metadata
  alignment-derived vm filter s o gc m obj bits eg e em ev =
      let (gc', array, eg', _, p) = derive_gcmetadata-emit filter s o e in
      let (_, _, _, pa) = emit-parts filter s.variants array gc' o p in
      let same : gc' ≡ gc = ground (arith, eg, eg') in
      alignment-constant vm (gc_metadata meaning o) m obj bits em ev refl
      ∙ ap some (declared_alignment vm o.alignment gc.alignment (rw same at pa))
