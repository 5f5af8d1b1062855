-- ===== src/Bdwgc/Allocation/Tracing.antt =====
-- What the tracing callback scans in an object that was just allocated.
use vmkit_core.Prelude.{
  ℕ, ◌+◌, ◌-◌, ◌*◌, ◌/◌, ◌%◌, ◌^◌, ◌≤◌, ◌<◌, ◌≡◌, ◌≢◌, ◌∙◌, refl, inl, inr, Bool, false,
  if◌then◌else◌, some, arith, [], get_elem?, Bool-cases,
}
use vmkit_core.Prelude.Words.{wrapping_sub, word_mod}
use vmkit_core.Memory.{Mem, load_word}
use vmkit_core.Object.{bytes_used}
use vmkit_core.Tlab.Fits.{AlignsUp}
use vmkit_core.Heap.{Mmtk, Mutator, by_tlab}
use vmkit_core.Heap.Paths.{allocate_object-fast}
use vmkit_core.Bdwgc.Words.{Encodes, composite, with_descr, kind_from_bitfield, kind_to_bitfield}
use vmkit_core.Bdwgc.Words.{kind_from_bitfield-kind_to_bitfield}
use vmkit_core.Bdwgc.Registry.{ObjKind}
use vmkit_core.Bdwgc.Marking.{descr_loop, Collector, bdwgc_vm, trace}
use vmkit_core.Bdwgc.Marking.Ranges.{words_found, mark_range_conservative-words}
use vmkit_core.Bdwgc.Allocation.{plain_metadata, gc_malloc}
use vmkit_core.Bdwgc.Allocation.Headers.{
  IsHeaderOf, bits, metadata-here, is_atomic-bits, object_kind-bits, bytes_used-IsHeaderOf,
  object_start-IsHeaderOf, plain_metadata-IsHeaderOf, plain_metadata-lt,
}

module _ (c : Collector) (encode : ℕ → ℕ → ℕ → ℕ) (laws : Encodes c.bit_fields encode)
    (up : AlignsUp c.raw_align_up) where
  -- For an object with the header of an allocation, the callback ends on any fuel: it traces
  -- nothing for an object without pointers, and otherwise the objects that the words of the object
  -- refer to, the header included and a rest of fewer than eight bytes left out.
  pub trace-IsHeaderOf :
      (fuel : ℕ) (m : Mem) (object size : ℕ) (atomic : Bool)
      → IsHeaderOf c.bit_fields size composite atomic (load_word m (wrapping_sub object 8))
      → 8 ≤ object
      → object < word_mod
      → size < 2 ^ 40
      → trace c fuel m object
        ≡ some (if atomic then [] else words_found c m (object - 8) (size / 8 + 1))
  unfolding trace kind_from_bitfield kind_to_bitfield
  trace-IsHeaderOf fuel m object size atomic h lo hi small =
      let here : object ≢ 0 = ground arith in
      let b = bits c encode laws up m object size composite atomic h here in
      let m1 = metadata-here c encode laws up m object size composite atomic h here in
      let m2 = is_atomic-bits c encode laws up m object size composite atomic h here in
      let m3 = object_kind-bits c encode laws up m object size composite atomic h here in
      let m4 = bytes_used-IsHeaderOf c encode laws up m object size composite atomic h here small in
      let m5 =
        object_start-IsHeaderOf c encode laws up m object size composite atomic h here lo hi in
      elim (Bool-cases atomic) [
        | inl t ↦ rw (m1, m2, t) refl
        | inr f ↦
            let w =
              mark_range_conservative-words c m (object - 8) (object - 8 + (size / 8 * 8 + 8)) in
            let n : (object - 8 + (size / 8 * 8 + 8) - (object - 8) + 7) / 8 ≡ size / 8 + 1 =
              omega arith in
            rw (m1, m2, f, m4, m3, m5, w, n) refl
      ]

  -- `GC_malloc` of a size below that of large objects, with a fast path through a buffer that has
  -- room for the object and its valid-object bits behind it: the object is aligned to eight bytes
  -- and lies with all of its size between the cursors before and after the call, the new one at most
  -- the limit of the buffer, the collector counts its bytes, rounded down to
  -- words, and its header, and tracing it ends on any fuel with the objects that these words refer
  -- to.
  pub gc_malloc-trace :
      (mmtk : Mmtk) (up' : AlignsUp mmtk.raw_align_up) (size : ℕ) (t : Mutator)
      → let bytes = mmtk.raw_align_up (size + 8) 8 in
        mmtk.alloc_fastpath ≡ by_tlab
        → size + 8 < mmtk.max_non_los_default_alloc_bytes
        → size < 2 ^ 40
        → bytes + 8 ≤ word_mod
        → 0 < t.tlab.cursor
        → t.tlab.cursor + 8 + mmtk.raw_align_up bytes 8 ≤ t.tlab.limit
        → (t.tlab.limit ≤ mmtk.vo_bit_base) × (t.tlab.limit < word_mod)
        → (object : ℕ) × (u : Mutator) × (gc_malloc encode mmtk size t ≡ some (object, u))
          × (object % 8 ≡ 0)
          × (t.tlab.cursor + 8 ≤ object)
          × (object + size ≤ u.tlab.cursor)
          × (u.tlab.cursor ≤ t.tlab.limit)
          × (bytes_used (bdwgc_vm c) u.mem object ≡ some (size / 8 * 8 + 8))
          × ((fuel : ℕ)
              → trace c fuel u.mem object ≡ some (words_found c u.mem (object - 8) (size / 8 + 1)))
  unfolding gc_malloc
  gc_malloc-trace mmtk up' size t fast small fits narrow pos room ends =
      let w = plain_metadata encode size in
      let hw = plain_metadata-IsHeaderOf c.bit_fields encode laws size fits in
      let lt : w < 2 ^ 64 = plain_metadata-lt c.bit_fields encode laws size fits in
      let r =
        allocate_object-fast mmtk up' w size 3 t fast small (omega arith) lt (omega arith, narrow)
          pos room ends in
      let object = r.0 in
      let u = r.1 in
      let e : wrapping_sub object 8 ≡ object - 8 = omega (arith, r.5, r.6, r.7, r.8, ends) in
      let l : load_word u.mem (wrapping_sub object 8) ≡ w = rw e r.4 in
      let here : IsHeaderOf c.bit_fields size composite false
          (load_word u.mem (wrapping_sub object 8)) =
        rw l hw in
      let hi : object < word_mod = omega (arith, r.6, r.7, r.8, ends) in
      let lo : 8 ≤ object = omega (arith, r.5) in
      (
        object,
        u,
        r.2,
        r.3,
        r.5,
        r.6,
        omega (arith, r.7, r.8),
        bytes_used-IsHeaderOf c encode laws up u.mem object size composite false here (ground arith)
            fits,
        λ fuel. trace-IsHeaderOf fuel u.mem object size false here lo hi fits,
      )

  -- An object that was allocated with a registered kind is traced by the descriptor of this kind.
  pub trace-kind :
      (fuel : ℕ) (m : Mem) (object size k : ℕ) (kind : ObjKind)
      → IsHeaderOf c.bit_fields size (with_descr k) false (load_word m (wrapping_sub object 8))
      → object ≢ 0
      → size < 2 ^ 40
      → k < 2 ^ 8
      → get_elem? c.obj_kinds.slots k ≡ some (some kind)
      → trace c fuel m object ≡ descr_loop c fuel m object kind.ok_descriptor
  unfolding trace
  trace-kind fuel m object size k kind h here small hk slot =
      let m1 = metadata-here c encode laws up m object size (with_descr k) false h here in
      let m2 = is_atomic-bits c encode laws up m object size (with_descr k) false h here in
      let m3 =
        object_kind-bits c encode laws up m object size (with_descr k) false h here
        ∙ (kind_from_bitfield-kind_to_bitfield k hk).0 in
      let m4 =
        bytes_used-IsHeaderOf c encode laws up m object size (with_descr k) false h here small in
      rw (m1, m2, m4, m3, slot) refl
