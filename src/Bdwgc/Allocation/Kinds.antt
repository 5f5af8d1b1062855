-- ===== src/Bdwgc/Allocation/Kinds.antt =====
-- Objects of a registered kind.
use Prim.Native.Nat.{bit_and}
use vmkit_core.Prelude.{
  ℕ, suc, ◌+◌, ◌-◌, ◌*◌, ◌/◌, ◌^◌, ◌<◌, ◌≡◌, ◌≢◌, ◌∙◌, refl, inl, inr, false, not, ◌==◌, some,
  arith, get_elem?,
}
use vmkit_core.Prelude.Bits.{bit_and-low_mask}
use vmkit_core.Prelude.Words.{wrap, wrapping_sub, word_mod}
use vmkit_core.Memory.{Mem, load_word}
use vmkit_core.Tlab.Fits.{AlignsUp}
use vmkit_core.Bdwgc.Words.{Encodes, with_descr}
use vmkit_core.Bdwgc.Registry.{
  ObjKind, Table, IsFilledUp, maxobjkinds, gc_new_kind, add_entry-cases,
}
use vmkit_core.Bdwgc.Marking.{Collector, trace, descr_loop}
use vmkit_core.Bdwgc.Marking.Ranges.{words_found, mark_range_conservative-words}
use vmkit_core.Bdwgc.Allocation.{generic_metadata}
use vmkit_core.Bdwgc.Allocation.Headers.{IsHeaderOf, generic_metadata-IsHeaderOf}
use vmkit_core.Bdwgc.Allocation.Tracing.{trace-kind}

-- The entry of a kind that was just registered.
gc_new_kind-slot :
    (descr adjust clear : ℕ) (t u : Table ObjKind) (k : ℕ)
    → IsFilledUp maxobjkinds t
    → gc_new_kind descr adjust clear t ≡ some (k, u)
    → (k < maxobjkinds)
      × (kind : ObjKind) × (get_elem? u.slots k ≡ some (some kind))
      × (kind.ok_descriptor ≡ descr)
unfolding gc_new_kind
gc_new_kind-slot descr adjust clear t u k w new =
    let kind : ObjKind = record {
      ok_descriptor = descr;
      ok_relocate_descr = not (adjust == 0);
      ok_init = not (clear == 0);
    } in
    elim (add_entry-cases maxobjkinds kind t w) [
      | inl (lt, v, e, wf, slot, old) ↦
          let p : (k ≡ t.count) × (u ≡ v) = ground (arith, e, new) in
          (rw p.0 lt, kind, rw (p.1, p.0) slot, refl)
      | inr (full, e) ↦ ground (arith, e, new)
    ]

module _ (c : Collector) (encode : ℕ → ℕ → ℕ → ℕ) (laws : Encodes c.bit_fields encode)
    (up : AlignsUp c.raw_align_up) where
  -- A descriptor that is a length, in whole words.
  descr_loop-length :
      (fuel : ℕ) (m : Mem) (object words : ℕ)
      → object + 8 * words < word_mod
      → descr_loop c (suc fuel) m object (8 * words) ≡ some (words_found c m object words)
  unfolding descr_loop
  descr_loop-length fuel m object words h =
      let tag : bit_and (8 * words) 3 ≡ 0 = omega (arith, bit_and-low_mask 2 (8 * words)) in
      let end : wrap (object + 8 * words) ≡ object + 8 * words = omega arith in
      let n : (object + 8 * words - object + 7) / 8 ≡ words = omega arith in
      rw (descr_loop, tag, end, mark_range_conservative-words c m object (object + 8 * words), n)
        refl

  -- For a kind that `GC_new_kind` has just registered with a descriptor of a whole number of words,
  -- and an object with the header of `GC_generic_malloc` for this kind: tracing the object ends on
  -- any fuel but 0, and scans exactly that many words from its address on.
  pub trace-gc_new_kind :
      (fuel : ℕ) (m : Mem) (object size words adjust clear : ℕ) (t u : Table ObjKind) (k : ℕ)
      → IsFilledUp maxobjkinds t
      → gc_new_kind (8 * words) adjust clear t ≡ some (k, u)
      → c.obj_kinds ≡ u
      → load_word m (wrapping_sub object 8) ≡ generic_metadata encode size k
      → object ≢ 0
      → size < 2 ^ 40
      → object + 8 * words < word_mod
      → trace c (suc fuel) m object ≡ some (words_found c m object words)
  trace-gc_new_kind fuel m object size words adjust clear t u k w new table head here small room =
      let (hk, kind, slot, d) = gc_new_kind-slot (8 * words) adjust clear t u k w new in
      let h = generic_metadata-IsHeaderOf c.bit_fields encode laws size k small (omega arith) in
      let h' : IsHeaderOf c.bit_fields size (with_descr k) false
          (load_word m (wrapping_sub object 8)) =
        rw head h in
      let slot' : get_elem? c.obj_kinds.slots k ≡ some (some kind) = rw table slot in
      trace-kind c encode laws up (suc fuel) m object size k kind h' here small (omega arith) slot'
      ∙ rw d (descr_loop-length fuel m object words room)
