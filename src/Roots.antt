-- ===== src/Roots.antt =====
-- vmkit/src/mm/conservative_roots.rs: the set of objects that a range of memory may refer to. The
-- set is a list without repetitions. mmtk gives the bounds of the heap and finds the object that
-- an internal pointer points into; `align_down` and `align_up` of its `Address` are parameters.
pub mod Scan
pub mod Spans
use vmkit_core.Prelude.{
  ℕ, zero, suc, ◌+◌, ◌-◌, ◌/◌, Bool, true, false, ◌||◌, ◌&&◌, ◌>>=◌, if◌then◌else◌, List, [], ◌∷◌,
  Option, none, some, ◌==◌, ltb,
}
use vmkit_core.Memory.{Mem, load_word}

pub record HeapBounds : Type 0 where
  pub starting_heap_address : ℕ
  pub last_heap_address : ℕ
  pub find_object_from_internal_pointer : ℕ → ℕ → Option ℕ
  pub align_down : ℕ → ℕ → ℕ
  pub align_up : ℕ → ℕ → ℕ

pub record ConservativeRoots : Type 0 where
  pub roots : List ℕ
  pub internal_pointer_limit : ℕ

abbrev pub contains : List ℕ → ℕ → Bool
contains [] x = false
contains (y ∷ ys) x = (x == y) || contains ys x

abbrev pub insert : List ℕ → ℕ → List ℕ
insert xs x = if contains xs x then xs else x ∷ xs

-- The two ends of a span.
pub record Range : Type 0 where
  pub low : ℕ
  pub high : ℕ

abbrev pub same_range : Range → Range → Bool
same_range x y = (x.low == y.low) && (x.high == y.high)

module _ (heap : HeapBounds) where
  pub add_pointer : ConservativeRoots → ℕ → ConservativeRoots
  add_pointer r pointer =
      if ltb pointer heap.starting_heap_address || ltb heap.last_heap_address pointer
      then r
      else (elim (heap.find_object_from_internal_pointer pointer r.internal_pointer_limit) [
        | none ↦ r
        | some start ↦ record r { roots = insert r.roots start }
      ])

  -- The `while current < end` loop. The distance to `end` is enough fuel.
  pub span_loop : ℕ → Mem → ℕ → ℕ → ConservativeRoots → ConservativeRoots
  unfolding add_pointer
  span_loop zero m current end r = r
  span_loop (suc fuel) m current end r =
      let rest = span_loop fuel m (current + 8) end (add_pointer r (load_word m current)) in
      if ltb current end then rest else r

  -- `none` is the failed assertion.
  pub add_span : Mem → ℕ → ℕ → ConservativeRoots → Option ConservativeRoots
  unfolding span_loop
  add_span m start end r =
      if (start == 0) || (end == 0)
      then none
      else (let lo = if ltb end start then end else start in
          let hi = if ltb end start then start else end in
          let from = heap.align_down lo 8 in
          let to = heap.align_up hi 8 in some (span_loop (to - from) m from to r))

  unfoldable pub new : ℕ → ConservativeRoots
  new limit = record { roots = []; internal_pointer_limit = limit }

  -- A sequence of spans, each given by its two ends.
  unfoldable pub add_spans : Mem → List Range → ConservativeRoots → Option ConservativeRoots
  add_spans m [] r = some r
  add_spans m (s ∷ ss) r = add_span m s.low s.high r >>= λ r'. add_spans m ss r'
