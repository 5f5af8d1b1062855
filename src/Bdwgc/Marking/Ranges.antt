-- ===== src/Bdwgc/Marking/Ranges.antt =====
-- Conservative scans of a range, by the words of the range.
use vmkit_core.Prelude.{
  ℕ, zero, suc, ◌+◌, ◌-◌, ◌/◌, ◌≤◌, ◌≡◌, refl, true, ltb, List, [], ◌++◌, arith, ap,
}
use vmkit_core.Memory.{Mem, load_word}
use vmkit_core.Bdwgc.Marking.{Collector, to_list, mark_range_loop, mark_range_conservative}

module _ (c : Collector) where
  -- The objects that the first `n` words from `start` on refer to.
  abbrev pub words_found : Mem → ℕ → ℕ → List ℕ
  words_found m start zero = []
  words_found m start (suc n) =
      to_list (c.find_object_from_internal_pointer (load_word m start) 128)
      ++ words_found m (start + 8) n

  mark_range_loop-words :
      (fuel n : ℕ) (m : Mem) (start end : ℕ)
      → end - start ≤ fuel
      → n ≡ (end - start + 7) / 8
      → mark_range_loop c fuel m start end ≡ words_found m start n
  unfolding mark_range_loop
  mark_range_loop-words zero zero m start end h e = refl
  mark_range_loop-words zero (suc n) m start end h e = absurd (omega arith)
  mark_range_loop-words (suc fuel) zero m start end h e = ground arith
  mark_range_loop-words (suc fuel) (suc n) m start end h e =
      let t : ltb start end ≡ true = ground arith in
      rw (t, mark_range_loop)
        (ap
          (λ (xs : List ℕ).
            to_list (c.find_object_from_internal_pointer (load_word m start) 128) ++ xs)
          (mark_range_loop-words fuel n m (start + 8) end (omega arith) (omega arith)))

  -- The loop over addresses visits exactly the words that begin in the range, a last one that is
  -- not whole included.
  pub mark_range_conservative-words :
      (m : Mem) (start end : ℕ)
      → mark_range_conservative c m start end ≡ words_found m start ((end - start + 7) / 8)
  unfolding mark_range_conservative
  mark_range_conservative-words m start end =
      mark_range_loop-words (end - start) ((end - start + 7) / 8) m start end (omega arith) refl
