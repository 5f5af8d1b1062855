-- ===== src/Bdwgc/Marking/Bitmaps.antt =====
-- When the loop over a bitmap descriptor ends, and descriptors that lie in the object.
use Prim.Native.Nat.{bit_and}
use vmkit_core.Prelude.{ℕ, zero, suc, ◌+◌, ◌-◌, ◌^◌, ◌<◌, ◌≡◌, refl, List, [], ◌++◌, none, arith}
use vmkit_core.Memory.{Mem}
use vmkit_core.Bdwgc.Marking.{Collector, mark_word, descr_loop}

-- The word whose bits from `j` on are set.
abbrev pub ones_from : ℕ → ℕ
ones_from j = 2 ^ 64 - 2 ^ j

module _ (c : Collector) where
  -- What the first `n` words trace.
  abbrev pub words_marked : Mem → ℕ → ℕ → List ℕ
  words_marked m p zero = []
  words_marked m p (suc n) = mark_word c m p ++ words_marked m (p + 8) n

  -- A descriptor with the tag GC_DS_PER_OBJECT and a clear highest bit, which says that the
  -- descriptor is in the object, is read again in each round of the loop, which never ends.
  pub descr_loop-per_object :
      (fuel : ℕ) (m : Mem) (object descr : ℕ)
      → bit_and descr 3 ≡ 3
      → descr < 2 ^ 63
      → descr_loop c fuel m object descr ≡ none
  unfolding descr_loop
  descr_loop-per_object zero m object descr t h = refl
  descr_loop-per_object (suc fuel) m object descr t h =
      rw (descr_loop, t) (ground (arith, descr_loop-per_object fuel m object descr t h))
