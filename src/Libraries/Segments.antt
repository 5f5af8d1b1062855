-- ===== src/Libraries/Segments.antt =====
-- Which ranges are found.
use Prim.Native.Nat.{bit_and}
use vmkit_core.Prelude.{
  ℕ, ◌≤◌, ◌≡◌, refl, ◌∙◌, inl, inr, Bool, true, false, not, ◌&&◌, ◌||◌, ◌==◌, ltb, List, [], ◌∷◌,
  arith, Bool-cases,
}
use vmkit_core.Prelude.Sets.{member, insert, member-insert}
use vmkit_core.Roots.{Range, same_range}
use vmkit_core.Roots.Spans.{same_range-Decides}
use vmkit_core.Libraries.{
  Phdr, Info, Callback, segment, register_segments, register_dynlib_callback,
  dynamic_libraries_sections, each_object, Iterates, pt_load, pf_w, end_of_phnum,
}

-- The range is that of a loaded and writable segment.
abbrev pub is_writable_at : ℕ → Range → Phdr → Bool
is_writable_at addr r p =
    (p.p_type == pt_load) && not (bit_and p.p_flags pf_w == 0) && same_range r (segment addr p)

abbrev pub some_segment : ℕ → Range → List Phdr → Bool
some_segment addr r [] = false
some_segment addr r (p ∷ ps) = is_writable_at addr r p || some_segment addr r ps

abbrev pub some_object : Range → List Info → Bool
some_object r [] = false
some_object r (o ∷ os) = some_segment o.dlpi_addr r o.dlpi_phdr || some_object r os

-- Each object is described as far as its number of program headers.
abbrev pub AllDescribed : List Info → Type 0
AllDescribed [] = Unit {0}
AllDescribed (o ∷ os) = (end_of_phnum ≤ o.size) × AllDescribed os

swap : (a b c : Bool) → (b || (a || c)) ≡ ((a || b) || c)
swap true true c = refl
swap true false c = refl
swap false true c = refl
swap false false c = refl

member-register_segments :
    (addr : ℕ) (ps : List Phdr) (ranges : List Range) (r : Range)
    → member same_range (register_segments addr ps ranges) r
      ≡ some_segment addr r ps || member same_range ranges r
unfolding register_segments
member-register_segments addr [] ranges r = refl
member-register_segments addr (p ∷ ps) ranges r =
    let added = member-insert same_range same_range-Decides ranges (segment addr p) r in
    elim (Bool-cases (p.p_type == pt_load)) [
      | inr n ↦ rw (n, member-register_segments addr ps ranges r) refl
      | inl l ↦ elim (Bool-cases (bit_and p.p_flags pf_w == 0)) [
        | inl c ↦ rw (l, c, member-register_segments addr ps ranges r) refl
        | inr w ↦
            rw
              (
                l,
                w,
                member-register_segments addr ps ((insert same_range ranges (segment addr p)).1) r,
                added,
              )
              (swap (same_range r (segment addr p)) (some_segment addr r ps)
                (member same_range ranges r))
      ]
    ]

member-each_object :
    (objects : List Info) (ranges : List Range) (r : Range)
    → AllDescribed objects
    → member same_range (each_object register_dynlib_callback objects ranges) r
      ≡ some_object r objects || member same_range ranges r
unfolding register_dynlib_callback
member-each_object [] ranges r h = refl
member-each_object (o ∷ os) ranges r h =
    let next = register_segments o.dlpi_addr o.dlpi_phdr ranges in
    elim (Bool-cases (ltb o.size end_of_phnum)) [
      | inl b ↦ absurd (ground (arith, b, h.0))
      | inr b ↦
          rw (b, member-each_object os next r h.1)
            (rw (member-register_segments o.dlpi_addr o.dlpi_phdr ranges r) (
              swap (some_segment o.dlpi_addr r o.dlpi_phdr) (some_object r os)
                (member same_range ranges r)))
    ]

-- A range is among the sections of the dynamic libraries exactly if it is that of a segment of some
-- object that is to be loaded and writable, also where such a segment becomes read-only later; for an
-- iteration over the objects as libc documents it, which describes each of them in full.
pub dynamic_libraries_sections-segments :
    (dl_iterate_phdr : Callback → List Range → List Range) (objects : List Info) (r : Range)
    → Iterates dl_iterate_phdr objects
    → AllDescribed objects
    → member same_range (dynamic_libraries_sections dl_iterate_phdr) r ≡ some_object r objects
unfolding dynamic_libraries_sections
dynamic_libraries_sections-segments dl_iterate_phdr objects r law h =
    rw (law register_dynlib_callback [])
      (member-each_object objects [] r h ∙ or_false (some_object r objects))
  where
    or_false : (b : Bool) → (b || false) ≡ b
    or_false true = refl
    or_false false = refl
