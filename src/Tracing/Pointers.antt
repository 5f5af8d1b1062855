-- ===== src/Tracing/Pointers.antt =====
-- What pointers refer to after they were traced.
use vmkit_core.Prelude.{
  ℕ, ◌+◌, ◌-◌, ◌≤◌, ◌<◌, ◌≡◌, ◌≢◌, refl, inl, inr, true, false, ◌==◌, some, arith,
}
use vmkit_core.Prelude.Words.{wrap, wrapping_sub, word_mod}
use vmkit_core.Compression.{decode}
use vmkit_core.Compression.RoundTrip.{IsEncodable, decode-encode}
use vmkit_core.Tracing.{
  Tracer, trace_reference, internal_object, internal_offset, trace_internal_pointer, trace_narrow,
}

module _ {S : Type 0} (tracer : Tracer S) where
  -- Tracing an internal pointer, where mmtk keeps its valid-object bits and finds the object at or in
  -- front of the pointer: the pointer then lies in the moved object as far as it lay in the old one;
  -- and if mmtk finds the moved object from there, its object is the moved one and its offset the old
  -- one. The moved pointer does not wrap.
  pub trace_internal_pointer-offset :
      (pointer start : ℕ) (s : S)
      → tracer.need_vo_bits ≡ true
      → tracer.find s pointer 128 ≡ some start
      → start ≤ pointer
      → pointer < word_mod
      → let (new_object, s') = tracer.trace_object start s in
        let moved = new_object + (pointer - start) in
        moved < word_mod
        → (trace_internal_pointer tracer pointer s ≡ some (moved, s'))
          × (tracer.find s' moved 128 ≡ some new_object
              → (internal_object tracer s' moved ≡ some new_object)
                × (internal_offset tracer s' moved ≡ internal_offset tracer s pointer))
  unfolding trace_internal_pointer internal_object internal_offset
  trace_internal_pointer-offset pointer start s vo found le lt fits =
      let new_object = (tracer.trace_object start s).0 in
      let s' = (tracer.trace_object start s).1 in
      let moved = new_object + (pointer - start) in
      let o : wrapping_sub pointer start ≡ pointer - start = omega arith in
      let w : wrap moved ≡ moved = omega arith in
      let o' : wrapping_sub moved new_object ≡ pointer - start = omega arith in
      (rw (vo, found, o, w) refl, λ again. (again, rw (again, found, o, o') refl))

  -- A narrow pointer that is not null decodes, after it was traced, to the object that the tracer
  -- gave, if the heap's compression covers this object; a null pointer stays null and is not traced.
  pub trace_narrow-decode :
      (narrow : ℕ) (s : S)
      → let object = decode tracer.ops narrow in
        let (new_object, s') = tracer.trace_object object s in
        (object ≢ 0
          → IsEncodable tracer.ops new_object
          → (decode tracer.ops (trace_narrow tracer narrow s).0 ≡ new_object)
            × ((trace_narrow tracer narrow s).1 ≡ s'))
        × (object ≡ 0
            → (decode tracer.ops (trace_narrow tracer narrow s).0 ≡ 0)
              × ((trace_narrow tracer narrow s).1 ≡ s))
  unfolding trace_narrow trace_reference
  trace_narrow-decode narrow s = (
    λ here ok.
        let t : (decode tracer.ops narrow == 0) ≡ false = ground (arith, here) in
        rw t (
          (decode-encode tracer.ops ((tracer.trace_object (decode tracer.ops narrow) s).0)
              (inr ok)).0,
          refl,
        ),
    λ gone.
        let t : (decode tracer.ops narrow == 0) ≡ true = ground (arith, gone) in
        rw (t, gone) ((decode-encode tracer.ops 0 (inl refl)).0, refl),
  )
