-- ===== src/Derive/Attributes/Sources.antt =====
-- What `find_arraylike` accepts.
use Prim.Native.String.{String}
use text.Mathlib.Text.{◌==◌}
use vmkit_core.Prelude.{
  ◌≡◌, refl, ◌⊎◌, inl, inr, Bool, true, false, List, [], ◌∷◌, Option, none, some, arith, Bool-cases,
}
use vmkit_core.Derive.{Syn, SynLaws, ArrayLike}
use vmkit_core.Derive.Outcome.{ok, >>=-eq-ok}
use vmkit_core.Derive.Attributes.{
  ArrayState, is_some, len_meta, data_meta, array_trace, array_len, array_data, array_data_type,
  arraylike_meta, find_attributes, array_of, find_arraylike, no_array,
}

-- At most one of the ways to give the length, and one of those to give the data.
pub record IsSourced {syn : Syn} (s : ArrayState syn) : Type 0 where
  pub length : (s.length_field ≡ none) ⊎ ((s.length_getter ≡ none) × (s.length_setter ≡ none))
  pub data_ptr : (s.data_field ≡ none) ⊎ (s.data_getter ≡ none)

is_some-false {ℓ} : {A : Type ℓ} (o : Option A) → is_some o ≡ false → o ≡ none
is_some-false none h = refl
is_some-false (some x) h = cc

module _ (syn : Syn) (laws : SynLaws syn) where
  -- The nested closures leave the other way of giving the same thing alone.
  HasNoLengthField : ArrayState syn → Type 0
  HasNoLengthField s = (s.length_field ≡ none) × ((s.data_field ≡ none) ⊎ (s.data_getter ≡ none))

  HasNoDataField : ArrayState syn → Type 0
  HasNoDataField s =
      (s.data_field ≡ none)
      × ((s.length_field ≡ none) ⊎ ((s.length_getter ≡ none) × (s.length_setter ≡ none)))

  len_meta-HasNoLengthField :
      (s s' : ArrayState syn) (path : String) (i i' : syn.Input)
      → HasNoLengthField s
      → len_meta syn s path i ≡ ok (s', i')
      → HasNoLengthField s'
  unfolding len_meta HasNoLengthField
  len_meta-HasNoLengthField s s' path i i' h e = ground arith

  data_meta-HasNoDataField :
      (s s' : ArrayState syn) (path : String) (i i' : syn.Input)
      → HasNoDataField s
      → data_meta syn s path i ≡ ok (s', i')
      → HasNoDataField s'
  unfolding data_meta HasNoDataField
  data_meta-HasNoDataField s s' path i i' h e = ground arith

  array_trace-IsSourced :
      (s s' : ArrayState syn) (path : String) (i i' : syn.Input)
      → IsSourced s
      → array_trace syn s path i ≡ ok (s', i')
      → IsSourced s'
  unfolding array_trace
  array_trace-IsSourced s s' path i i' h e = ground arith

  array_len-IsSourced :
      (s s' : ArrayState syn) (path : String) (i i' : syn.Input)
      → IsSourced s
      → array_len syn s path i ≡ ok (s', i')
      → IsSourced s'
  unfolding array_len HasNoLengthField
  array_len-IsSourced s s' path i i' h e = ground (
    arith,
    laws.nested HasNoLengthField (len_meta syn) len_meta-HasNoLengthField s s' i i',
    is_some-false s.length_field,
    h.data_ptr,
  )

  array_data-IsSourced :
      (s s' : ArrayState syn) (path : String) (i i' : syn.Input)
      → IsSourced s
      → array_data syn s path i ≡ ok (s', i')
      → IsSourced s'
  unfolding array_data HasNoDataField
  array_data-IsSourced s s' path i i' h e = ground (
    arith,
    laws.nested HasNoDataField (data_meta syn) data_meta-HasNoDataField s s' i i',
    is_some-false s.data_field,
    is_some-false s.data_getter,
    h.length,
  )

  array_data_type-IsSourced :
      (s s' : ArrayState syn) (path : String) (i i' : syn.Input)
      → IsSourced s
      → array_data_type syn s path i ≡ ok (s', i')
      → IsSourced s'
  unfolding array_data_type
  array_data_type-IsSourced s s' path i i' h e = ground arith

  arraylike_meta-IsSourced :
      (s s' : ArrayState syn) (path : String) (i i' : syn.Input)
      → IsSourced s
      → arraylike_meta syn s path i ≡ ok (s', i')
      → IsSourced s'
  unfolding arraylike_meta
  arraylike_meta-IsSourced s s' path i i' h e =
      let r1 = >>=-eq-ok (array_trace syn s path i) _ e in
      let r2 = >>=-eq-ok (array_len syn r1.0.0 path r1.0.1) _ r1.2 in
      let r3 = >>=-eq-ok (array_data syn r2.0.0 path r2.0.1) _ r2.2 in
      array_data_type-IsSourced r3.0.0 s' path r3.0.1 i'
        (array_data-IsSourced r2.0.0 r3.0.0 path r2.0.1 r3.0.1
          (array_len-IsSourced r1.0.0 r2.0.0 path r1.0.1 r2.0.1
            (array_trace-IsSourced s r1.0.0 path i r1.0.1 h r1.1) r2.1)
          r3.1)
        r3.2

  find_attributes-IsSourced :
      (name : String) (attrs : List syn.Attribute) (has has' : Bool) (s s' : ArrayState syn)
      → IsSourced s
      → find_attributes syn name (arraylike_meta syn) attrs (has, s) ≡ ok (has', s')
      → IsSourced s'
  unfolding find_attributes
  find_attributes-IsSourced name [] has has' s s' h e = ground (arith, h.length, h.data_ptr)
  find_attributes-IsSourced name (attr ∷ attrs) has has' s s' h e =
      elim (Bool-cases (syn.attribute_path attr == name)) [
        | inr other ↦
            find_attributes-IsSourced name attrs has has' s s' h (ground (arith, other, e))
        | inl named ↦
            let r =
              >>=-eq-ok (syn.parse_attribute (arraylike_meta syn) s attr)
                (λ t. find_attributes syn name (arraylike_meta syn) attrs (true, t))
                (ground (arith, named, e)) in
            find_attributes-IsSourced name attrs true has' r.0 s'
              (laws.attribute IsSourced (arraylike_meta syn) arraylike_meta-IsSourced s r.0 attr h
                r.1)
              r.2
      ]

  array_of-one_source :
      (found : Bool × ArrayState syn) (a : ArrayLike syn)
      → IsSourced found.1
      → array_of syn found ≡ ok (some a)
      → ((a.length_field ≡ none) ⊎ ((a.length_getter ≡ none) × (a.length_setter ≡ none)))
        × ((a.data_field ≡ none) ⊎ (a.data_getter ≡ none))
  unfolding array_of
  array_of-one_source (has, s) a h e = ground (arith, h.length, h.data_ptr)

  -- Whatever the attributes are, an `arraylike` that is accepted gives its length by a field or by
  -- a getter and a setter, never by both, and its data by a field or by a getter, never by both.
  -- The parser of `syn` satisfies its laws.
  pub find_arraylike-one_source :
      (attrs : List syn.Attribute) (a : ArrayLike syn)
      → find_arraylike syn attrs ≡ ok (some a)
      → ((a.length_field ≡ none) ⊎ ((a.length_getter ≡ none) × (a.length_setter ≡ none)))
        × ((a.data_field ≡ none) ⊎ (a.data_getter ≡ none))
  unfolding find_arraylike
  find_arraylike-one_source attrs a e =
      let r =
        >>=-eq-ok (find_attributes syn "arraylike" (arraylike_meta syn) attrs (false, no_array syn))
          (array_of syn) e in
      let k =
        find_attributes-IsSourced "arraylike" attrs false r.0.0 (no_array syn) r.0.1
          (record { length = inl refl; data_ptr = inl refl }) r.1 in
      array_of-one_source r.0 a k r.2
