-- ===== src/Object/Unhashed.antt =====
-- Sizes and starts of objects that were never hashed.
use vmkit_core.Prelude.{
  ℕ, ◌+◌, ◌-◌, ◌≤◌, ◌<◌, ◌≡◌, ◌≢◌, refl, inl, inr, true, false, some, arith, Bool-cases,
}
use vmkit_core.Prelude.Words.{wrap, wrapping_sub, word_mod}
use vmkit_core.Memory.{Mem, load_word}
use vmkit_core.Header.{header, hash_state, metadata, from_bitfield}
use vmkit_core.Object.{
  ObjectVm, object_gc_metadata, object_bytes, hashcode_overhead, has_hashcode, bytes_used,
  object_start,
}

module _ (vm : ObjectVm) (m : Mem) (object : ℕ) (here : object ≢ 0)
    (state : vm.address_based_hashing ≡ true
      → vm.bit_fields.decode 62 2 (load_word m (wrapping_sub object 8)) ≡ 0) where
  hashcode_overhead-unhashed : hashcode_overhead vm m object false ≡ some 0
  unfolding hashcode_overhead has_hashcode hash_state header from_bitfield
  hashcode_overhead-unhashed = elim (Bool-cases vm.address_based_hashing) [
    | inl t ↦ ground (arith, t, here, state t)
    | inr f ↦ ground (arith, f)
  ]

  pub bytes_used-unhashed :
      (bits : ℕ) (f : Mem → ℕ → ℕ)
      → metadata vm.bit_fields vm.address_based_hashing m object ≡ some bits
      → (vm.gc_metadata bits).compute_size ≡ some f
      → bytes_used vm m object
        ≡ some (
            vm.raw_align_up
              (wrap (wrap (wrap (0 + (vm.gc_metadata bits).instance_size) + f m object) + 8))
              8)
  unfolding bytes_used object_bytes object_gc_metadata
  bytes_used-unhashed bits f e s = rw (e, hashcode_overhead-unhashed, s) refl

  pub object_start-unhashed :
      8 ≤ object → object < word_mod → object_start vm m object ≡ some (object - 8)
  unfolding object_start
  object_start-unhashed lo hi =
      let e : wrapping_sub object (8 + 0) ≡ object - 8 = omega arith in
      rw (hashcode_overhead-unhashed, e) refl
