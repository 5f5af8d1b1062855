-- ===== src/Scanning.antt =====
-- vmkit/src/mm/scanning.rs: the scan of an object by slots or by tracing, and the roots of a thread.
-- The VM, its slots and the tracer of mmtk are the record `Scanner`, over a state of any type, which
-- holds memory and what mmtk knows; an object and a slot are addresses. `none` is a panic.
pub mod Objects
pub mod Threads
mod Tests
use vmkit_core.Prelude.{
  ℕ, ◌+◌, Bool, true, false, not, ◌&&◌, ◌||◌, if◌then◌else◌, ◌==◌, List, [], ◌∷◌, ◌++◌, Option,
  none, some, ◌>>=◌,
}
use vmkit_core.Memory.{Mem}
use vmkit_core.Roots.{HeapBounds, ConservativeRoots, Range, new, add_spans}

-- A callback that scans slots visits those that it finds in the object when it is called.
pub data TraceCallback (S : Type 0) : Type 0 where
  scan_slots : (S → ℕ → List ℕ) → TraceCallback S
  trace_object : (ℕ → S → S) → TraceCallback S
  no_trace : TraceCallback S

-- `VM::Metadata` of an object, with the callback of its `gc_metadata`.
pub record Metadata (S : Type 0) : Type 0 where
  pub is_object : Bool
  pub to_slot : Option ℕ
  pub to_object_reference : Option ℕ
  pub trace : TraceCallback S

-- `set_metadata s object new` is the header's `set_metadata` of the metadata that is made from `new`.
pub record Scanner (S : Type 0) : Type 0 where
  pub always_trace : Bool
  pub metadata : S → ℕ → Metadata S
  pub set_metadata : S → ℕ → ℕ → S
  pub load : S → ℕ → Option ℕ
  pub store : S → ℕ → ℕ → S
  pub tracer : ℕ → S → ℕ × S

abbrev pub is_some : Option ℕ → Bool
is_some none = false
is_some (some x) = true

module _ {S : Type 0} (vm : Scanner S) where
  -- `scan_object`: the slots that it visits, in their order.
  pub scan_object : S → ℕ → Option (List ℕ)
  scan_object s object =
      let meta = vm.metadata s object in
      (if meta.is_object then (meta.to_slot >>= λ slot. some (slot ∷ [])) else some [])
      >>= λ visited. elim meta.trace [
        | scan_slots fun ↦ some (visited ++ fun s object)
        | no_trace ↦ some visited
        | trace_object fun ↦ none
      ]

  -- `TraceSlotVisitor::visit_slot`.
  unfoldable pub visit_slot : ℕ → S → S
  visit_slot slot s = elim (vm.load s slot) [
    | none ↦ s
    | some object ↦ let (new, s') = vm.tracer object s in vm.store s' slot new
  ]

  unfoldable pub visit_slots : List ℕ → S → S
  unfolding visit_slot
  visit_slots [] s = s
  visit_slots (slot ∷ slots) s = visit_slots slots (visit_slot slot s)

  -- The part of `scan_object_and_trace_edges` for the metadata.
  pub trace_metadata : Metadata S → S → ℕ → S
  trace_metadata meta s object =
      if meta.is_object
      then (elim meta.to_object_reference [
        | none ↦ s
        | some meta_object ↦
            let (new_object, s') = vm.tracer meta_object s in
            if new_object == meta_object then s' else vm.set_metadata s' object new_object
      ])
      else s

  pub scan_object_and_trace_edges : S → ℕ → S
  unfolding visit_slots trace_metadata
  scan_object_and_trace_edges s object =
      let meta = vm.metadata s object in
      let s1 = trace_metadata meta s object in
      elim meta.trace [
        | scan_slots fun ↦ visit_slots (fun s1 object) s1
        | no_trace ↦ s1
        | trace_object fun ↦ fun object s1
      ]

  pub support_slot_enqueuing : S → ℕ → Bool
  support_slot_enqueuing s object =
      let meta = vm.metadata s object in
      if vm.always_trace
      then false
      else (elim meta.trace [ scan_slots _ ↦ true | _ ↦ false ])
        && (not meta.is_object || is_some meta.to_slot)

-- The conservative part of `scan_roots_in_mutator_thread`, with the copy of the registers, which
-- lies at `registers` and has `register_bytes` bytes, the origin of the stack, the stack pointer,
-- and what the context of the thread adds.
module _ (heap : HeapBounds) where
  pub scan_roots_in_mutator_thread :
      Mem
      → (registers register_bytes origin stack_pointer : ℕ)
      → (ConservativeRoots → Option ConservativeRoots)
      → Option ConservativeRoots
  unfolding add_spans new
  scan_roots_in_mutator_thread m registers register_bytes origin stack_pointer context =
      add_spans heap m
        (record { low = registers; high = registers + register_bytes }
          ∷ record { low = origin; high = stack_pointer }
          ∷ [])
        (new heap 128)
      >>= context
