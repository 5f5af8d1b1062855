-- ===== src/Slice.antt =====
-- vmkit/src/object_model/object.rs: `SimpleMemorySlice`, a range of slots of `slot_bytes` bytes, and
-- its iterator.
pub mod Slots
use vmkit_core.Prelude.{
  ℕ, zero, suc, ◌+◌, ◌-◌, if◌then◌else◌, List, [], ◌∷◌, Option, none, some, ltb,
}
use vmkit_core.Prelude.Words.{wrapping_sub}
use vmkit_core.Memory.{Mem}
use vmkit_core.Memory as Memory

pub record SimpleMemorySlice : Type 0 where
  pub start : ℕ
  pub end : ℕ

pub record RangeIterator : Type 0 where
  pub cursor : ℕ
  pub end : ℕ

pub iter_slots : SimpleMemorySlice → RangeIterator
iter_slots s = record { cursor = s.start; end = s.end }

-- The slot, and the iterator afterwards.
pub next : ℕ → RangeIterator → Option ℕ × RangeIterator
next slot_bytes it =
    if ltb it.cursor it.end
    then (some it.cursor, record it { cursor = it.cursor + slot_bytes })
    else (none, it)

pub bytes : SimpleMemorySlice → ℕ
bytes s = wrapping_sub s.end s.start

unfoldable pub copy_slice : SimpleMemorySlice → SimpleMemorySlice → Mem → Mem
unfolding bytes
copy_slice src tgt m = Memory.copy m src.start tgt.start (bytes tgt)

-- A `for` loop over the iterator. The distance to the end is enough fuel.
pub visit : ℕ → ℕ → RangeIterator → List ℕ
unfolding next
visit zero slot_bytes it = []
visit (suc fuel) slot_bytes it =
    let rest = visit fuel slot_bytes (next slot_bytes it).1 in
    elim (next slot_bytes it).0 [ none ↦ [] | some slot ↦ slot ∷ rest ]

pub visit_slots : ℕ → SimpleMemorySlice → List ℕ
unfolding visit iter_slots
visit_slots slot_bytes s = visit (s.end - s.start) slot_bytes (iter_slots s)
