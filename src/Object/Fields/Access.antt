-- ===== src/Object/Fields/Access.antt =====
-- What a field holds after a store, with and without the write barrier.
use vmkit_core.Prelude.{
  ℕ, ◌+◌, ◌/◌, ◌%◌, ◌^◌, ◌≤◌, ◌<◌, ◌≡◌, ◌∙◌, ◌⊎◌, refl, inl, inr, Bool, true, false, ◌&&◌,
  if◌then◌else◌, Option, none, some, ◌==◌, arith, Bool-cases, ap,
}
use vmkit_core.Prelude.Words.{word_mod}
use vmkit_core.Memory.{
  Mem, load_bytes, store_bytes, load_bytes-store_bytes, load_bytes-store_bytes_apart,
  store_bytes-outside,
}
use vmkit_core.Heap.{object_reference_write_post}
use vmkit_core.Compression.{CompressedOps, decode, encode}
use vmkit_core.Compression.RoundTrip.{IsEncodable, decode-encode, encode-lt}
use vmkit_core.Object.Fields.{
  Primitive, size_of, field_address, get_field_primitive, set_field_primitive, get_field_bool,
  set_field_bool, get_field_object, set_field_object, set_field_object_no_write_barrier, Barrier,
  write_post, get_field_narrow, set_field_narrow,
}

-- A value of any primitive type that is stored in a field is read back from it, and every field of
-- whatever type that does not overlap it keeps its value.
pub get_field_primitive-set_field_primitive :
    (p : Primitive) (m : Mem) (object offset value : ℕ)
    → value < 256 ^ size_of p
    → (get_field_primitive p (set_field_primitive p m object offset value) object offset ≡ value)
      × ((q : Primitive) (other offset' : ℕ)
          → let a = field_address object offset in
            let b = field_address other offset' in
            (b + size_of q ≤ a) ⊎ (a + size_of p ≤ b)
            → get_field_primitive q (set_field_primitive p m object offset value) other offset'
              ≡ get_field_primitive q m other offset')
unfolding get_field_primitive set_field_primitive
get_field_primitive-set_field_primitive p m object offset value h = (
  load_bytes-store_bytes (size_of p) m (field_address object offset) value h,
  λ q other offset' apart.
      load_bytes-store_bytes_apart (size_of q) (size_of p) m (field_address object offset)
        (field_address other offset') value apart,
)

pub get_field_bool-set_field_bool :
    (m : Mem) (object offset : ℕ) (value : Bool)
    → get_field_bool (set_field_bool m object offset value) object offset ≡ value
unfolding get_field_bool set_field_bool get_field_primitive set_field_primitive size_of
get_field_bool-set_field_bool m object offset true =
    rw (load_bytes-store_bytes 1 m (field_address object offset) 1 (omega arith)) refl
get_field_bool-set_field_bool m object offset false =
    rw (load_bytes-store_bytes 1 m (field_address object offset) 0 (omega arith)) refl

module _ (barrier : Barrier) where
  -- The byte with the log bit of an object, which says that the object is not yet logged.
  abbrev pub log_byte : ℕ → ℕ
  log_byte src = barrier.side_metadata_base + src / 2 ^ 6

  abbrev pub log_bit : Mem → ℕ → Bool
  log_bit m src = m (log_byte src) / 2 ^ (src / 2 ^ 3 % 8) % 2 == 1

  write_post-cases :
      (n : ℕ) (src slot target value : ℕ) (m : Mem)
      → (log_byte src < slot) ⊎ (slot + n ≤ log_byte src)
      → write_post barrier src slot target (store_bytes n m slot value) ≡ (
          if barrier.object_barrier && log_bit m src
          then barrier.write_slow src slot
              (if target == 0 then none else some target)
              (store_bytes n m slot value)
          else store_bytes n m slot value)
  unfolding write_post object_reference_write_post
  write_post-cases n src slot target value m apart =
      rw (store_bytes-outside n m slot value (log_byte src) apart) refl

  -- A store of a reference with its write barrier, in a slot that holds no log bit of the object:
  -- with an object barrier and the log bit set, as it is before the store, mmtk is told the object,
  -- the slot and the target, once, after the store; otherwise nothing but the store happens. If what
  -- mmtk does leaves the slot alone, the field holds the reference afterwards.
  pub get_field_object-set_field_object :
      (m : Mem) (object offset value : ℕ)
      → let slot = field_address object offset in
        let stored = set_field_object_no_write_barrier m object offset value in
        value < word_mod
        → (log_byte object < slot) ⊎ (slot + 8 ≤ log_byte object)
        → ((target : Option ℕ) (k : Mem)
            → load_bytes 8 (barrier.write_slow object slot target k) slot ≡ load_bytes 8 k slot)
        → (set_field_object barrier m object offset value ≡ (
            if barrier.object_barrier && log_bit m object
            then barrier.write_slow object slot (if value == 0 then none else some value) stored
            else stored))
          × (get_field_object (set_field_object barrier m object offset value) object offset
              ≡ value)
  unfolding set_field_object get_field_object set_field_object_no_write_barrier set_field_primitive
      get_field_primitive size_of
  get_field_object-set_field_object m object offset value h apart slow =
      let slot = field_address object offset in
      let stored = store_bytes 8 m slot value in
      let c = write_post-cases 8 object slot value value m apart in
      let s = load_bytes-store_bytes 8 m slot value h in
      (
        c,
        rw c (elim (Bool-cases (barrier.object_barrier && log_bit m object)) [
          | inl b ↦ rw b (slow (if value == 0 then none else some value) stored ∙ s)
          | inr b ↦ rw b s
        ]),
      )

  -- A compressed pointer that is stored with its barrier is read back as the object it was made
  -- from, for null and each address that the heap's compression covers, if mmtk leaves the slot alone.
  pub get_field_narrow-set_field_narrow :
      (ops : CompressedOps) (m : Mem) (object offset v : ℕ)
      → let slot = field_address object offset in
        (v ≡ 0) ⊎ IsEncodable ops v
        → (log_byte object < slot) ⊎ (slot + 4 ≤ log_byte object)
        → ((target : Option ℕ) (k : Mem)
            → load_bytes 4 (barrier.write_slow object slot target k) slot ≡ load_bytes 4 k slot)
        → decode ops (
            get_field_narrow
              (set_field_narrow barrier ops m object offset (encode ops v))
              object
              offset)
          ≡ v
  unfolding set_field_narrow get_field_narrow set_field_primitive get_field_primitive size_of
  get_field_narrow-set_field_narrow ops m object offset v ok apart slow =
      let slot = field_address object offset in
      let raw = encode ops v in
      let stored = store_bytes 4 m slot raw in
      let c = write_post-cases 4 object slot (decode ops raw) raw m apart in
      let s = load_bytes-store_bytes 4 m slot raw (encode-lt ops v) in
      let read : load_bytes 4 (write_post barrier object slot (decode ops raw) stored) slot ≡ raw =
        rw c (elim (Bool-cases (barrier.object_barrier && log_bit m object)) [
          | inl b ↦
              rw b (slow (if decode ops raw == 0 then none else some (decode ops raw)) stored ∙ s)
          | inr b ↦ rw b s
        ]) in
      ap (λ (x : ℕ). decode ops x) read ∙ (decode-encode ops v ok).0
