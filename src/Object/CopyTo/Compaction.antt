-- ===== src/Object/CopyTo/Compaction.antt =====
-- What `copy_to` leaves in memory, for an object that stays and for one that moves.
use vmkit_core.Prelude.{
  ℕ, ◌+◌, ◌-◌, ◌≤◌, ◌<◌, ◌≡◌, ◌≢◌, ◌⊎◌, inr, true, false, ◌==◌, some, arith, refl, ◌∙◌,
}
use vmkit_core.Prelude.Words.{wrap, word_mod}
use vmkit_core.Memory.{
  Mem, store_word, copy, store_bytes-outside, load_bytes-store_bytes, copy-inside, load_bytes-copy,
  load_word,
}
use vmkit_core.Header.{unhashed, hashed, hash_state, set_hash_state}
use vmkit_core.Header.Fields.{with_state, from_bitfield-with_state, with_state-lt}
use vmkit_core.Object.{
  ObjectVm, bytes_used, bytes_required_when_copied, object_start, hashcode_overhead,
}
use vmkit_core.Object.Move.{to_object, move_object}
use vmkit_core.Object.Hashing.{IsHashed, StateIs}
use vmkit_core.Object.CopyTo.{copy_to}

-- What is relied on of the function of mmtk: it changes no byte outside of the gap.
abbrev pub FillsGap : (Mem → ℕ → ℕ → Mem) → Type 0
FillsGap fill =
    (m : Mem) (start end x : ℕ) → start ≤ end → (x < start) ⊎ (end ≤ x) → fill m start end x ≡ m x

module _ (vm : ObjectVm) (fill : Mem → ℕ → ℕ → Mem) (fills : FillsGap fill) (m : Mem)
    (from region : ℕ) where
  -- An object that stays where it is: the result is the address behind its bytes, if this does not
  -- wrap, and no byte changes but those between the region and the object's start.
  pub copy_to-in_place :
      (bytes start : ℕ)
      → bytes_used vm m from ≡ some bytes
      → object_start vm m from ≡ some start
      → region ≤ start
      → start + bytes < word_mod
      → (m' : Mem) × (copy_to vm fill m from from region ≡ some (start + bytes, m'))
        × ((x : ℕ) → (x < region) ⊎ (start ≤ x) → m' x ≡ m x)
  unfolding copy_to
  copy_to-in_place bytes start used at room fits =
      let e : (from == from) ≡ true = ground arith in
      let w : wrap (start + bytes) ≡ start + bytes = omega arith in
      (fill m region start, rw (e, used, at, w) refl, λ x h. fills m region start x room h)

  module _ (to : ℕ) (ok : IsHashed vm m from) (apart : from ≢ to) where
    abbrev written : ℕ → Mem
    written bytes =
        store_word (copy m (from - 8) (to - 8) bytes) (to - 8)
          (with_state vm.bit_fields hashed (load_word (copy m (from - 8) (to - 8) bytes) (to - 8)))

    moved_unhashed :
        (bytes : ℕ)
        → StateIs vm m from unhashed
        → 8 ≤ to
        → to < word_mod
        → move_object vm m from (to_object to) bytes ≡ some (to, written bytes)
    unfolding move_object hash_state set_hash_state
    moved_unhashed bytes st lo hi = ground (arith, ok.hashing, ok.low, ok.high, st)

    start_unhashed :
        (bytes : ℕ)
        → 8 ≤ bytes
        → 8 ≤ to
        → to < word_mod
        → object_start vm (written bytes) to ≡ some (to - 8)
    unfolding object_start hashcode_overhead hash_state
    start_unhashed bytes hb lo hi =
        let copied = copy m (from - 8) (to - 8) bytes in
        let w = with_state vm.bit_fields hashed (load_word copied (to - 8)) in
        let word : load_word copied (to - 8) < word_mod =
          ground (arith, ok.word, load_bytes-copy 8 m (from - 8) (to - 8) bytes 0 hb) in
        let stored : load_word (written bytes) (to - 8) ≡ w =
          load_bytes-store_bytes 8 copied (to - 8) w
            (with_state-lt vm.bit_fields ok.laws hashed _ word) in
        ground (
          arith,
          ok.hashing,
          stored,
          from_bitfield-with_state vm.bit_fields ok.laws hashed (load_word copied (to - 8)),
        )

    written_byte : (bytes x : ℕ) → 8 ≤ bytes → to - 8 + bytes ≤ x → 8 ≤ to → written bytes x ≡ m x
    written_byte bytes x hb h lo =
        store_bytes-outside 8 (copy m (from - 8) (to - 8) bytes) (to - 8) _ x (inr (omega arith))
        ∙ unfold copy in ground arith

    payload_byte : (bytes i : ℕ) → 8 ≤ to → i + 8 < bytes → written bytes (to + i) ≡ m (from + i)
    payload_byte bytes i lo h = ground (
      arith,
      ok.low,
      store_bytes-outside 8 (copy m (from - 8) (to - 8) bytes) (to - 8)
          (with_state vm.bit_fields hashed (load_word (copy m (from - 8) (to - 8) bytes) (to - 8)))
          (to + i) (inr (omega arith)),
      copy-inside m (from - 8) (to - 8) bytes (i + 8) h,
    )

    -- A move of an object that was never hashed, to another place, copies as many bytes as the memory
    -- at the target asks for before anything is copied there, read as the header of an object (at
    -- least eight): the payload up to that size arrives, and no byte behind it is written, whatever
    -- the size of the moved object is. The result is the address behind these bytes. The object
    -- satisfies `IsHashed`, the target's header does not lie before the region, mmtk's filling of the
    -- gap between them changes no other byte, and no address wraps.
    pub copy_to-target_size :
        (bytes : ℕ)
        → StateIs vm m from unhashed
        → bytes_required_when_copied vm m to ≡ some bytes
        → 8 ≤ bytes
        → region + 8 ≤ to
        → to + bytes < word_mod
        → (m' : Mem) × (copy_to vm fill m from to region ≡ some (to - 8 + bytes, m'))
          × ((i : ℕ) → i + 8 < bytes → m' (to + i) ≡ m (from + i))
          × ((x : ℕ) → to - 8 + bytes ≤ x → m' x ≡ m x)
    unfolding copy_to
    copy_to-target_size bytes st size hb place fits =
        let e : (from == to) ≡ false = ground (arith, apart) in
        let lo : 8 ≤ to = omega arith in
        let hi : to < word_mod = omega arith in
        let w : wrap (to - 8 + bytes) ≡ to - 8 + bytes = omega arith in
        let m1 = written bytes in
        let keep : (x : ℕ) → to - 8 ≤ x → fill m1 region (to - 8) x ≡ m1 x =
          λ x h. fills m1 region (to - 8) x (omega arith) (inr h) in
        (
          fill m1 region (to - 8),
          rw (e, size, moved_unhashed bytes st lo hi, start_unhashed bytes hb lo hi, w) refl,
          λ i h. keep (to + i) (omega arith) ∙ payload_byte bytes i lo h,
          λ x h. keep x (omega arith) ∙ written_byte bytes x hb h lo,
        )
