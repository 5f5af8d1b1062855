-- ===== src/Derive/Output/Total.antt =====
-- When the macro panics.
use vmkit_core.Prelude.{
  ◌≡◌, ◌≢◌, inl, inr, true, false, List, Option, none, some, arith, Bool-cases, Option-cases,
}
use vmkit_core.Derive.{Syn, ArrayLike, ObjectSize, ObjectTrace, GcMetadata, Field, Structure}
use vmkit_core.Derive.Outcome.{Result-cases, ok}
use vmkit_core.Derive.Attributes.{find_arraylike, find_gcmetadata}
use vmkit_core.Derive.Output.{
  Filter, access, extra, trace_code, compute_size, emit, derive_gcmetadata,
}

module _ {syn : Syn} where
  -- The attributes give no length, or no data.
  abbrev pub LacksLength : ArrayLike syn → Type 0
  LacksLength a = (a.length_getter ≡ none) × (a.length_field ≡ none)

  abbrev pub LacksData : ArrayLike syn → Type 0
  LacksData a = (a.data_getter ≡ none) × (a.data_field ≡ none)

  -- The derived method has a loop over the elements.
  abbrev pub LoopsOver : GcMetadata syn → ArrayLike syn → Type 0
  LoopsOver gc a =
      (elim gc.trace [ ObjectTrace.auto scan ↦ true | _ ↦ false ] ≡ true) × (a.trace ≡ true)

  -- The size is not computed by an expression of the attributes.
  abbrev pub CountsElements : GcMetadata syn → Type 0
  CountsElements gc = elim gc.size [ ObjectSize.compute e ↦ false | _ ↦ true ] ≡ true

  -- Code that emission needs is missing.
  pub data Missing (gc : GcMetadata syn) (a : ArrayLike syn) : Type 0 where
    loop_length : LoopsOver gc a → LacksLength a → Missing gc a
    loop_data : LoopsOver gc a → LacksData a → Missing gc a
    size_length : CountsElements gc → LacksLength a → Missing gc a

  access-none :
      (e : Option syn.Expr) (f : Option _) → access syn e f ≡ none → (e ≡ none) × (f ≡ none)
  unfolding access
  access-none e f h = ground arith

  access-none_of :
      (e : Option syn.Expr) (f : Option _) → (e ≡ none) × (f ≡ none) → access syn e f ≡ none
  unfolding access
  access-none_of e f h = ground arith

  module _ (filter : Filter) (variants : List (List Field)) where
    emit-panics :
        (gc : GcMetadata syn) (a : ArrayLike syn)
        → emit syn filter variants (some a) gc ≡ none
        → Missing gc a
    unfolding emit trace_code extra compute_size
    emit-panics gc a e = elim (Option-cases (access syn a.length_getter a.length_field)) [
      | inl el ↦
          let lack = access-none a.length_getter a.length_field el in
          elim (Bool-cases (elim gc.size [ ObjectSize.compute e ↦ false | _ ↦ true ])) [
            | inl counts ↦ size_length counts lack
            | inr computed ↦ loop_length (ground (arith, e, el, computed)) lack
          ]
      | inr (l, el) ↦ elim (Option-cases (access syn a.data_getter a.data_field)) [
        | inl ed ↦ loop_data (ground (arith, e, el, ed)) (access-none a.data_getter a.data_field ed)
        | inr (d, ed) ↦ absurd (ground (arith, e, el, ed))
      ]
    ]

    Missing-emit :
        (gc : GcMetadata syn) (a : ArrayLike syn)
        → Missing gc a
        → emit syn filter variants (some a) gc ≡ none
    unfolding emit trace_code extra compute_size
    Missing-emit gc a (loop_length l h) = ground (arith, access-none_of _ _ h)
    Missing-emit gc a (loop_data l h) = ground (arith, access-none_of _ _ h)
    Missing-emit gc a (size_length l h) = ground (arith, access-none_of _ _ h)

    no_array-emits : (gc : GcMetadata syn) → emit syn filter variants none gc ≢ none
    unfolding emit trace_code extra compute_size
    no_array-emits gc e = ground arith

  -- The macro panics exactly when its attributes are accepted, with an `arraylike`, and code that
  -- it needs is missing: the length or the data of the elements that the derived method loops over,
  -- or the length that the size is computed from.
  pub derive_gcmetadata-panics_iff :
      (filter : Filter) (s : Structure syn)
      → (derive_gcmetadata syn filter s ≡ none
          → (gc : GcMetadata syn) × (a : ArrayLike syn) × (find_gcmetadata syn s.attrs ≡ ok gc)
            × (find_arraylike syn s.attrs ≡ ok (some a))
            × Missing gc a)
        × ((gc : GcMetadata syn) (a : ArrayLike syn)
            → find_gcmetadata syn s.attrs ≡ ok gc
            → find_arraylike syn s.attrs ≡ ok (some a)
            → Missing gc a
            → derive_gcmetadata syn filter s ≡ none)
  unfolding derive_gcmetadata
  derive_gcmetadata-panics_iff filter s = (
    λ e. elim (Result-cases (find_gcmetadata syn s.attrs)) [
      | inr (b, eg) ↦ absurd (ground (arith, e, eg))
      | inl (gc, eg) ↦ elim (Result-cases (find_arraylike syn s.attrs)) [
        | inr (b, ea) ↦ absurd (ground (arith, e, eg, ea))
        | inl (none, ea) ↦
            let r = Option-cases (emit syn filter s.variants none gc) in
            elim r [
              | inl p ↦ absurd (no_array-emits filter s.variants gc p)
              | inr (o, p) ↦ absurd (ground (arith, e, eg, ea, p))
            ]
        | inl (some a, ea) ↦ elim (Option-cases (emit syn filter s.variants (some a) gc)) [
          | inl p ↦ (gc, a, eg, ea, emit-panics filter s.variants gc a p)
          | inr (o, p) ↦ absurd (ground (arith, e, eg, ea, p))
        ]
      ]
    ],
    λ gc a eg ea m. ground (arith, eg, ea, Missing-emit filter s.variants gc a m),
  )
