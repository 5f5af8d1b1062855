-- ===== src/Slice/Slots.antt =====
-- The slots that an iteration visits, and what a copy of a slice moves.
use vmkit_core.Prelude.{
  ℕ, zero, suc, ◌+◌, ◌-◌, ◌*◌, ◌≤◌, ◌<◌, ◌≡◌, inl, inr, none, some, arith, ltb, if◌then◌else◌,
  get_elem?, Bool-cases,
}
use vmkit_core.Slice.{SimpleMemorySlice, iter_slots, next, visit, visit_slots}

visit_lem :
    (fuel size c e i : ℕ)
    → 0 < size
    → e - c ≤ fuel
    → get_elem? (visit fuel size (record { cursor = c; end = e })) i
      ≡ (if ltb (c + i * size) e then some (c + i * size) else none)
unfolding visit next
visit_lem zero size c e i h f = ground arith
visit_lem (suc fuel) size c e zero h f = ground arith
visit_lem (suc fuel) size c e (suc i) h f =
    let q : c + size + i * size ≡ c + suc i * size = grind arith in
    elim (Bool-cases (ltb c e)) [
      | inl b ↦
          let r = visit_lem fuel size (c + size) e i h (ground (arith, b)) in
          ground (arith, b, rw q at r)
      | inr b ↦ ground (arith, b)
    ]

-- For slots of at least one byte, the iteration over a slice visits exactly its slots in their
-- order: the `i`-th is the one that lies `i` slots behind the start, if it starts within the slice,
-- and there are no more.
pub visit_slots_lem :
    (size : ℕ) (s : SimpleMemorySlice) (i : ℕ)
    → 0 < size
    → get_elem? (visit_slots size s) i
      ≡ (if ltb (s.start + i * size) s.end then some (s.start + i * size) else none)
unfolding visit_slots iter_slots
visit_slots_lem size s i h = visit_lem (s.end - s.start) size s.start s.end i h (omega arith)
