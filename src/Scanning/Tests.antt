-- ===== src/Scanning/Tests.antt =====
-- A heap with one object, and an object whose metadata is an object that the tracer moves.
use vmkit_core.Prelude.{ℕ, ◌+◌, ◌-◌, ◌%◌, ◌≡◌, refl, true, false, List, [], ◌∷◌, some, arith}
use vmkit_core.Memory.{Mem}
use vmkit_core.Roots.{HeapBounds}
use vmkit_core.Scanning.{
  Scanner, scan_slots, support_slot_enqueuing, scan_object, visit_slots,
  scan_object_and_trace_edges,
}
use vmkit_core.Scanning.Objects.{IsCoherent, scan_object-scan_object_and_trace_edges}

-- The state is the only reference, which each slot holds.
abbrev scanner : Scanner ℕ
scanner = record {
  always_trace = false;
  metadata = λ s object. record {
    is_object = true;
    to_slot = some 4096;
    to_object_reference = some s;
    trace = scan_slots (λ s object. object ∷ (object + 8) ∷ []);
  };
  set_metadata = λ s object new. new;
  load = λ s slot. some s;
  store = λ s slot value. value;
  tracer = λ object s. (object + 16, s);
}

scanner-IsCoherent : IsCoherent scanner 8192 4104
scanner-IsCoherent = record {
  holds = λ slot h. refl;
  sets = λ slot old h g ne. refl;
  keeps = λ slot old h g e. absurd (omega (arith, e));
  same_slots = refl;
}

scanner-supported : support_slot_enqueuing scanner 8192 4104 ≡ true
unfolding support_slot_enqueuing
scanner-supported = refl

scan_object-scan_object_and_trace_edges_example :
    (slots : List ℕ) × (scan_object scanner 8192 4104 ≡ some slots)
    × (visit_slots scanner slots 8192 ≡ scan_object_and_trace_edges scanner 8192 4104)
scan_object-scan_object_and_trace_edges_example =
    scan_object-scan_object_and_trace_edges scanner 8192 4104 scanner-supported scanner-IsCoherent

abbrev heap : HeapBounds
heap = record {
  starting_heap_address = 4096;
  last_heap_address = 8192;
  find_object_from_internal_pointer = λ pointer limit. some 4104;
  align_down = λ x align. x - x % align;
  align_up = λ x align. x + (align - 1) - (x + (align - 1)) % align;
}

abbrev memory : Mem
memory a = 16
