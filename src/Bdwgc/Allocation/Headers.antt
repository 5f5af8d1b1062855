-- ===== src/Bdwgc/Allocation/Headers.antt =====
-- What the collector reads back from the header of a new object.
use Prim.Native.Nat.{bit_or}
use vmkit_core.Prelude.{
  ℕ, ◌+◌, ◌-◌, ◌*◌, ◌/◌, ◌%◌, ◌^◌, ◌≤◌, ◌<◌, ◌≡◌, ◌≢◌, ◌∙◌, refl, inl, inr, Bool, true, false,
  if◌then◌else◌, some, arith, ap, Bool-cases,
}
use vmkit_core.Prelude.Bits.{bit_or-zero_left, bit_or-zero_right, bit_or-lt}
use vmkit_core.Prelude.Words.{wrap, wrapping_sub, word_mod}
use vmkit_core.Memory.{Mem, load_word}
use vmkit_core.Header.{BitFields, metadata, header, metadata_bit_limit}
use vmkit_core.Object.{object_start, bytes_used}
use vmkit_core.Object.Unhashed.{bytes_used-unhashed, object_start-unhashed}
use vmkit_core.Tlab.Fits.{AlignsUp}
use vmkit_core.Bdwgc.Words.{
  Encodes, ObjectKind, composite, with_descr, kind_to_bitfield, kind_from_bitfield, object_size,
  object_kind, is_atomic,
}
use vmkit_core.Bdwgc.Marking.{Collector, bdwgc_vm}
use vmkit_core.Bdwgc.Allocation.{plain_metadata, atomic_metadata, generic_metadata}

-- A header word of an object of `size` bytes that was not hashed.
pub record IsHeaderOf (b : BitFields) (size : ℕ) (k : ObjectKind) (atomic : Bool) (w : ℕ)
    : Type 0 where
  pub words : b.decode 0 37 w ≡ size / 8
  pub kind : b.decode 37 6 w ≡ kind_to_bitfield k
  pub flag : b.decode 43 1 w ≡ (if atomic then 1 else 0)
  pub state : b.decode 62 2 w ≡ 0

module _ (b : BitFields) (encode : ℕ → ℕ → ℕ → ℕ) (laws : Encodes b encode) where
  -- A size below 2^40 is kept, in units of eight bytes, by the word of an object with pointers.
  pub plain_metadata-IsHeaderOf :
      (size : ℕ) → size < 2 ^ 40 → IsHeaderOf b size composite false (plain_metadata encode size)
  unfolding plain_metadata kind_to_bitfield
  plain_metadata-IsHeaderOf size h = record {
    words = laws.decode-encode 0 37 (size / 8) (omega arith) (omega arith);
    kind = laws.decode-encode_apart 37 6 0 37 (size / 8) (omega arith) (inr (omega arith));
    flag = laws.decode-encode_apart 43 1 0 37 (size / 8) (omega arith) (inr (omega arith));
    state = laws.decode-encode_apart 62 2 0 37 (size / 8) (omega arith) (inr (omega arith));
  }

  pub plain_metadata-lt : (size : ℕ) → size < 2 ^ 40 → plain_metadata encode size < 2 ^ 64
  unfolding plain_metadata
  plain_metadata-lt size h = laws.encode-lt 0 37 (size / 8) (omega arith) (omega arith)

  -- The same for an object of one of the kinds that fit into their field.
  pub generic_metadata-IsHeaderOf :
      (size k : ℕ)
      → size < 2 ^ 40
      → k < 62
      → IsHeaderOf b size (with_descr k) false (generic_metadata encode size k)
  unfolding generic_metadata kind_to_bitfield
  generic_metadata-IsHeaderOf size k h hk =
      let small : k % 2 ^ 8 ≡ k = omega arith in
      let x = encode 0 37 (size / 8) in
      let y = encode 37 6 (2 + k % 2 ^ 8) in
      let apart : (s n : ℕ) → 43 ≤ s → b.decode s n (bit_or x y) ≡ 0 = λ s n l.
        let ex = laws.decode-encode_apart s n 0 37 (size / 8) (omega arith) (inr (omega arith)) in
        let ey =
          laws.decode-encode_apart s n 37 6 (2 + k % 2 ^ 8) (omega arith) (inr (omega arith)) in
        laws.decode-bit_or s n x y ∙ rw (ex, ey) refl in
      record {
        words =
            let ex = laws.decode-encode 0 37 (size / 8) (omega arith) (omega arith) in
            let ey =
              laws.decode-encode_apart 0 37 37 6 (2 + k % 2 ^ 8) (omega arith)
                (inl (omega arith)) in
            laws.decode-bit_or 0 37 x y ∙ rw (ex, ey) (bit_or-zero_right (size / 8));
        kind =
            let ex =
              laws.decode-encode_apart 37 6 0 37 (size / 8) (omega arith) (inr (omega arith)) in
            let ey = laws.decode-encode 37 6 (2 + k % 2 ^ 8) (omega arith) (omega arith) in
            laws.decode-bit_or 37 6 x y ∙ rw (ex, ey, small) (bit_or-zero_left (2 + k));
        flag = apart 43 1 (omega arith);
        state = apart 62 2 (omega arith);
      }

  pub generic_metadata-lt :
      (size k : ℕ) → size < 2 ^ 40 → k < 62 → generic_metadata encode size k < 2 ^ 64
  unfolding generic_metadata kind_to_bitfield
  generic_metadata-lt size k h hk =
      bit_or-lt 64 (encode 0 37 (size / 8)) (encode 37 6 (2 + k % 2 ^ 8))
        (laws.encode-lt 0 37 (size / 8) (omega arith) (omega arith))
        (laws.encode-lt 37 6 (2 + k % 2 ^ 8) (omega arith) (omega arith))

  decode-or3 :
      (s n x y z : ℕ)
      → b.decode s n (bit_or (bit_or x y) z)
        ≡ bit_or (bit_or (b.decode s n x) (b.decode s n y)) (b.decode s n z)
  decode-or3 s n x y z =
      laws.decode-bit_or s n (bit_or x y) z
      ∙ ap (λ (t : ℕ). bit_or t (b.decode s n z)) (laws.decode-bit_or s n x y)

  -- The same for the word of an object without pointers, whose three fields are joined.
  pub atomic_metadata-IsHeaderOf :
      (size : ℕ) → size < 2 ^ 40 → IsHeaderOf b size composite true (atomic_metadata encode size)
  unfolding atomic_metadata kind_to_bitfield
  atomic_metadata-IsHeaderOf size h =
      let x = encode 0 37 (size / 8) in
      let y = encode 37 6 0 in
      let z = encode 43 1 1 in
      record {
        words =
            let ex = laws.decode-encode 0 37 (size / 8) (omega arith) (omega arith) in
            let ey = laws.decode-encode_apart 0 37 37 6 0 (omega arith) (inl (omega arith)) in
            let ez = laws.decode-encode_apart 0 37 43 1 1 (omega arith) (inl (omega arith)) in
            decode-or3 0 37 x y z
            ∙ rw (ex, ey, ez, bit_or-zero_right (size / 8), bit_or-zero_right (size / 8)) refl;
        kind =
            let ex =
              laws.decode-encode_apart 37 6 0 37 (size / 8) (omega arith) (inr (omega arith)) in
            let ey = laws.decode-encode 37 6 0 (omega arith) (omega arith) in
            let ez = laws.decode-encode_apart 37 6 43 1 1 (omega arith) (inl (omega arith)) in
            decode-or3 37 6 x y z ∙ rw (ex, ey, ez) refl;
        flag =
            let ex =
              laws.decode-encode_apart 43 1 0 37 (size / 8) (omega arith) (inr (omega arith)) in
            let ey = laws.decode-encode_apart 43 1 37 6 0 (omega arith) (inr (omega arith)) in
            let ez = laws.decode-encode 43 1 1 (omega arith) (omega arith) in
            decode-or3 43 1 x y z ∙ rw (ex, ey, ez) refl;
        state =
            let ex =
              laws.decode-encode_apart 62 2 0 37 (size / 8) (omega arith) (inr (omega arith)) in
            let ey = laws.decode-encode_apart 62 2 37 6 0 (omega arith) (inr (omega arith)) in
            let ez = laws.decode-encode_apart 62 2 43 1 1 (omega arith) (inr (omega arith)) in
            decode-or3 62 2 x y z ∙ rw (ex, ey, ez) refl;
      }

-- An object that lies in memory with such a header.
module _ (c : Collector) (encode : ℕ → ℕ → ℕ → ℕ) (laws : Encodes c.bit_fields encode)
    (up : AlignsUp c.raw_align_up) (m : Mem) (object size : ℕ) (k : ObjectKind) (atomic : Bool)
    (h : IsHeaderOf c.bit_fields size k atomic (load_word m (wrapping_sub object 8)))
    (here : object ≢ 0) where
  abbrev pub bits : ℕ
  bits =
      c.bit_fields.decode 0 (metadata_bit_limit c.address_based_hashing)
        (load_word m (wrapping_sub object 8))

  limit-62 : 62 ≤ metadata_bit_limit c.address_based_hashing
  limit-62 = elim (Bool-cases c.address_based_hashing) [
    | inl t ↦ ground (arith, t)
    | inr f ↦ ground (arith, f)
  ]

  decode-bits :
      (s n : ℕ)
      → s + n ≤ 62
      → c.bit_fields.decode s n bits ≡ c.bit_fields.decode s n (load_word m (wrapping_sub object 8))
  decode-bits s n k =
      laws.decode-low s n (metadata_bit_limit c.address_based_hashing)
        (load_word m (wrapping_sub object 8)) (omega (arith, limit-62))

  pub metadata-here : metadata c.bit_fields c.address_based_hashing m object ≡ some bits
  unfolding metadata header
  metadata-here = ground (arith, here)

  object_size-bits : object_size c.bit_fields bits ≡ size / 8 * 8
  unfolding object_size
  object_size-bits = omega (arith, decode-bits 0 37 (omega arith), h.words)

  pub object_kind-bits : object_kind c.bit_fields bits ≡ kind_from_bitfield (kind_to_bitfield k)
  unfolding object_kind
  object_kind-bits =
      let e : c.bit_fields.decode 37 6 bits ≡ kind_to_bitfield k =
        decode-bits 37 6 (omega arith) ∙ h.kind in
      rw e refl

  pub is_atomic-bits : is_atomic c.bit_fields bits ≡ atomic
  unfolding is_atomic
  is_atomic-bits =
      let e = decode-bits 43 1 (omega arith) ∙ h.flag in
      elim (Bool-cases atomic) [ inl t ↦ ground (arith, e, t) | inr f ↦ ground (arith, e, f) ]

  round_words :
      size < 2 ^ 40
      → c.raw_align_up (wrap (wrap (wrap (0 + 0) + size / 8 * 8) + 8)) 8 ≡ size / 8 * 8 + 8
  round_words small =
      let x = wrap (wrap (wrap (0 + 0) + size / 8 * 8) + 8) in
      let e : x ≡ size / 8 * 8 + 8 = omega arith in
      let hx : x + 2 ^ 3 ≤ word_mod = omega arith in
      omega (
        arith,
        e,
        up.from x 3 (omega arith) hx,
        up.near x 3 (omega arith) hx,
        up.multiple x 3 (omega arith) hx,
      )

  -- The collector counts the bytes of the object rounded down to words, and its header.
  pub bytes_used-IsHeaderOf :
      size < 2 ^ 40 → bytes_used (bdwgc_vm c) m object ≡ some (size / 8 * 8 + 8)
  bytes_used-IsHeaderOf small =
      bytes_used-unhashed (bdwgc_vm c) m object here (λ t. h.state) bits
        (λ k o. object_size c.bit_fields bits) metadata-here refl
      ∙ rw (object_size-bits, round_words small) refl

  pub object_start-IsHeaderOf :
      8 ≤ object → object < word_mod → object_start (bdwgc_vm c) m object ≡ some (object - 8)
  object_start-IsHeaderOf lo hi =
      object_start-unhashed (bdwgc_vm c) m object here (λ t. h.state) lo hi
