-- ===== src/Derive/Runs/Visits.antt =====
-- What the derived methods visit.
use Prim.Native.String.{String}
use text.Mathlib.Text.{◌==◌}
use text.Mathlib.TextEquality.{eq_iff}
use text.Mathlib.TextPositions.{eq_refl}
use vmkit_core.Prelude.{
  ℕ, zero, suc, ◌+◌, ◌*◌, ◌≡◌, ap, refl, inl, inr, Bool, false, not, ◌&&◌, ◌||◌, if◌then◌else◌,
  List, [], ◌∷◌, ◌++◌, map, Option, none, some, arith, get_elem?, Bool-cases, Option-cases,
}
use vmkit_core.Prelude.Words.{wrap}
use vmkit_core.Prelude.Sets.{Decides, member, member-insert}
use vmkit_core.Memory.{Mem}
use vmkit_core.Derive.{Syn, ArrayLike, ObjectTrace, GcMetadata, Field, Structure}
use vmkit_core.Derive.Outcome.{ok}
use vmkit_core.Derive.Attributes.{find_arraylike, find_gcmetadata}
use vmkit_core.Derive.Output.Emitted.{derive_gcmetadata-emit_of, emit-parts}
use vmkit_core.Derive.Output.{
  Filter, Output, TraceImpl, Elements, Access, access, extra, trace_code, derive_gcmetadata, keeps,
  fields_to_skip, skip, is_ignored, same_name,
}
use vmkit_core.Derive.Runs.{Meaning, Visit, data_value, run_impl, run_elements, visit_elements}
use vmkit_core.Derive.Runs.Sizes.{declared_length, access-length}

abbrev pub retain : (Field → Bool) → List Field → List Field
retain keep [] = []
retain keep (f ∷ fs) = if keep f then f ∷ retain keep fs else retain keep fs

-- What `synstructure` documents of its filter.
pub record FilterLaws (filter : Filter) : Type 0 where
  pub filter-map :
      (keep : Field → Bool) (variants : List (List Field))
      → filter keep variants ≡ map (retain keep) variants

-- The field is the one with this name.
abbrev pub is_named : Option String → Field → Bool
is_named (some name) f = elim f.ident [ some own ↦ own == name | none ↦ false ]
is_named none f = false

-- `0..count`, from `i`.
abbrev pub range : (i count : ℕ) → List ℕ
range i zero = []
range i (suc count) = i ∷ range (suc i) count

names : Decides same_name
names = record { equal = λ x y h. (eq_iff x y).0 h; reflexive = λ x. eq_refl x }

retain-ext :
    (p q : Field → Bool) → ((f : Field) → p f ≡ q f) → (fs : List Field) → retain p fs ≡ retain q fs
retain-ext p q h [] = refl
retain-ext p q h (f ∷ fs) = ground (arith, h f, retain-ext p q h fs)

get_elem?-map :
    (p : List Field → List Field) (vs : List (List Field)) (k : ℕ) (fs : List Field)
    → get_elem? vs k ≡ some fs
    → get_elem? (map p vs) k ≡ some (p fs)
get_elem?-map p [] k fs h = ground (arith, h)
get_elem?-map p (v ∷ vs) zero fs h = ground (arith, h)
get_elem?-map p (v ∷ vs) (suc k) fs h = get_elem?-map p vs k fs h

module _ {syn : Syn} (meaning : Meaning syn) where
  -- The data that the attributes give: by the getter, or else by the field.
  abbrev pub declared_data : ArrayLike syn → Mem → ℕ → ℕ
  declared_data a m obj = elim a.data_getter [
    | some e ↦ meaning.compute e m obj
    | none ↦ elim a.data_field [ some name ↦ meaning.field_ptr name m obj | none ↦ 0 ]
  ]

  -- The elements of an `arraylike`, unless it says `trace = false`.
  abbrev pub traced_elements : Option (ArrayLike syn) → Mem → ℕ → List Visit
  traced_elements none m obj = []
  traced_elements (some a) m obj =
      if a.trace
      then map
          (λ i. Visit.element (wrap (declared_data a m obj + i * meaning.size_of a.element_type)))
          (range 0 (declared_length meaning a m obj))
      else []

  -- A field is traced unless it says `ignore_trace` or is the length or the data of an `arraylike`.
  abbrev pub is_traced : Option (ArrayLike syn) → Field → Bool
  is_traced none f = not (is_ignored syn f.attrs)
  is_traced (some a) f =
      not (is_ignored syn f.attrs)
      && not (is_named a.length_field f)
      && not (is_named a.data_field f)

  member-skip :
      (o : Option String) (xs : List String) (own : String)
      → member same_name (skip syn o xs) own
        ≡ (elim o [ none ↦ false | some name ↦ own == name ]) || member same_name xs own
  unfolding skip
  member-skip none xs own = refl
  member-skip (some name) xs own = member-insert same_name names xs name own

  keeps-eq-is_traced :
      (array : Option (ArrayLike syn)) (f : Field)
      → keeps syn (fields_to_skip syn array) f ≡ is_traced array f
  unfolding keeps fields_to_skip
  keeps-eq-is_traced none f = ground arith
  keeps-eq-is_traced (some a) f = elim (Option-cases f.ident) [
    | inl n ↦ ground (arith, n)
    | inr (own, n) ↦
        let outer = member-skip a.length_field (skip syn a.data_field []) own in
        let inner = member-skip a.data_field [] own in ground (arith, n, outer, inner)
  ]

  visit_elements-eq :
      (ptr size i count : ℕ)
      → visit_elements meaning ptr size i count
        ≡ map (λ j. Visit.element (wrap (ptr + j * size))) (range i count)
  unfolding visit_elements
  visit_elements-eq ptr size i zero = refl
  visit_elements-eq ptr size i (suc count) =
      ap (λ vs. Visit.element (wrap (ptr + i * size)) ∷ vs)
        (visit_elements-eq ptr size (suc i) count)

  access-data :
      (a : ArrayLike syn) (c : Access syn) (m : Mem) (obj : ℕ)
      → access syn a.data_getter a.data_field ≡ some c
      → data_value meaning c m obj ≡ declared_data a m obj
  unfolding access data_value
  access-data a c m obj e = ground arith

  extra-traced_elements :
      (array : Option (ArrayLike syn)) (es : Option (Elements syn)) (m : Mem) (obj : ℕ)
      → extra syn array ≡ some es
      → run_elements meaning es m obj ≡ traced_elements array m obj
  unfolding extra run_elements
  extra-traced_elements none es m obj e = ground (arith, e)
  extra-traced_elements (some a) es m obj e = elim (Bool-cases a.trace) [
    | inr n ↦ ground (arith, e, n)
    | inl t ↦ elim (Option-cases (access syn a.length_getter a.length_field)) [
      | inl n ↦ absurd (ground (arith, e, t, n))
      | inr (l, el) ↦ elim (Option-cases (access syn a.data_getter a.data_field)) [
        | inl n ↦ absurd (ground (arith, e, t, el, n))
        | inr (d, ed) ↦
            let q : es ≡ some (record { length = l; data_ptr = d; element = a.element_type }) =
              ground (arith, e, t, el, ed) in
            rw
              (
                q,
                t,
                access-length meaning a l m obj el,
                access-data a d m obj ed,
                visit_elements-eq (declared_data a m obj) (meaning.size_of a.element_type) 0
                    (declared_length meaning a m obj),
              )
              refl
      ]
    ]
  ]

  module _ (filter : Filter) (laws : FilterLaws filter) where
    auto-visits :
        (variants : List (List Field)) (array : Option (ArrayLike syn)) (scan : Bool)
        (o : Output syn) (m : Mem) (obj k : ℕ) (fields : List Field)
        → trace_code syn filter variants array (ObjectTrace.auto scan)
          ≡ some (o.trace_impl, o.trace)
        → get_elem? variants k ≡ some fields
        → (impl : TraceImpl syn) × (o.trace_impl ≡ some impl)
          × (impl.scan ≡ scan)
          × (run_impl meaning impl m obj k
              ≡ traced_elements array m obj ++ map Visit.field (retain (is_traced array) fields))
    unfolding trace_code run_impl
    auto-visits variants array scan o m obj k fields e arm = elim (Option-cases (extra syn array)) [
      | inl n ↦ absurd (ground (arith, e, n))
      | inr (es, n) ↦
          let arms = filter (keeps syn (fields_to_skip syn array)) variants in
          let bound : get_elem? arms k ≡ some (retain (is_traced array) fields) =
            rw
              (
                laws.filter-map (keeps syn (fields_to_skip syn array)) variants,
                get_elem?-map (retain (keeps syn (fields_to_skip syn array))) variants k fields arm,
                retain-ext (keeps syn (fields_to_skip syn array)) (is_traced array)
                    (keeps-eq-is_traced array) fields,
              )
              refl in
          (
            record { scan = scan; elements = es; arms = arms },
            ground (arith, e, n),
            refl,
            rw (bound, extra-traced_elements array es m obj n) refl,
          )
    ]

    -- For attributes that are accepted with `trace` or `scan` alone, the derived method visits, on an
    -- object of any variant, first each element of the `arraylike` in order, unless it says `trace =
    -- false`, and then each field of the variant that is not marked `ignore_trace` and is neither its
    -- length nor its data, once and in order; `scan` derives `Scan` and `trace` derives `Trace`.
    -- The filter of `synstructure` satisfies its law.
    pub derive_gcmetadata-visits :
        (s : Structure syn) (o : Output syn) (gc : GcMetadata syn) (array : Option (ArrayLike syn))
        (scan : Bool) (m : Mem) (obj k : ℕ) (fields : List Field)
        → find_gcmetadata syn s.attrs ≡ ok gc
        → gc.trace ≡ ObjectTrace.auto scan
        → find_arraylike syn s.attrs ≡ ok array
        → derive_gcmetadata syn filter s ≡ some (ok o)
        → get_elem? s.variants k ≡ some fields
        → (impl : TraceImpl syn) × (o.trace_impl ≡ some impl)
          × (impl.scan ≡ scan)
          × (run_impl meaning impl m obj k
              ≡ traced_elements array m obj ++ map Visit.field (retain (is_traced array) fields))
    derive_gcmetadata-visits s o gc array scan m obj k fields eg et ea e arm =
        let (p, _, _, _) =
          emit-parts filter s.variants array gc o
            (derive_gcmetadata-emit_of filter s o gc array eg ea e) in
        auto-visits s.variants array scan o m obj k fields (rw et at p) arm
