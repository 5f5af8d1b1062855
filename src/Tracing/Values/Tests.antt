-- ===== src/Tracing/Values/Tests.antt =====
-- A vector of two references, traced by a collector that moves every object by 4096 bytes.
use mathlib.Core.Path.{fun_ext}
use vmkit_core.Prelude.{
  ℕ, ◌+◌, ◌≡◌, refl, ap, inl, inr, false, if◌then◌else◌, ◌==◌, List, [], ◌∷◌, none, some, arith,
  Bool-cases,
}
use vmkit_core.Memory.{Mem, put}
use vmkit_core.Tracing.{Tracer}
use vmkit_core.Scanning.{Scanner, TraceCallback, visit_slots}
use vmkit_core.Tracing.Values.{Value, Values, SlotExtra, scan, trace_value}
use vmkit_core.Tracing.Values.Slots.{OnlyReferences, trace_value-visit_slots}

-- `SlotExtra for SimpleSlot`.
abbrev simple_slot : SlotExtra Mem
simple_slot = record {
  from_vmkit_object = λ a. a;
  from_narrow = λ a. none;
  load = λ m a. m a;
  store = λ m a o. put m a o;
  load_narrow = λ m a. m a;
  store_narrow = λ m a o. put m a o;
  load_fat = λ m a. record { offset = m (a + 1); object = m a };
  temporary = 64;
}

abbrev moving : Tracer Mem
moving = record {
  trace_object = λ o m. (o + 4096, m);
  find = λ m a limit. none;
  need_vo_bits = false;
  ops = record { base = 0; shift = 0; range = (0, 0) };
}

abbrev scanner : Scanner Mem
scanner = record {
  always_trace = false;
  metadata = λ m o. record {
    is_object = false;
    to_slot = none;
    to_object_reference = none;
    trace = TraceCallback.no_trace;
  };
  set_metadata = λ m o new. m;
  load = λ m a. if m a == 0 then none else some (m a);
  store = λ m a o. put m a o;
  tracer = λ o m. (o + 4096, m);
}

put_same : (m : Mem) (a : ℕ) → put m a (m a) ≡ m
put_same m a = fun_ext (λ x. elim (Bool-cases (a == x)) [
  | inl b ↦ let q : a ≡ x = ground (arith, b) in ground (arith, b, ap m q)
  | inr b ↦ ground (arith, b)
])

abbrev pair : Value
pair = Value.vec (
    Values.cons (Value.object 8)
      (Values.cons Value.primitive (Values.cons (Value.object 16) Values.nil)))

trace_value-visit_slots_example :
    (visited : List ℕ) × (scan simple_slot pair ≡ some visited)
    × ((s : Mem) → trace_value simple_slot moving pair s ≡ some (visit_slots scanner visited s))
unfolding OnlyReferences
trace_value-visit_slots_example =
    trace_value-visit_slots simple_slot moving scanner (λ a. refl) (λ s a. refl) (λ s a o. refl)
      (λ o s. refl) put_same (λ o s a. refl) pair (tt, (tt, (tt, tt)))

slots_of_pair : scan simple_slot pair ≡ some (8 ∷ 16 ∷ [])
unfolding scan
slots_of_pair = refl

-- A vector of narrow pointers cannot be scanned into slots of this kind.
narrow_fails : scan simple_slot (Value.vec (Values.cons (Value.narrow 8) Values.nil)) ≡ none
unfolding scan
narrow_fails = refl
