-- ===== src/Tracing/Values.antt =====
-- vmkit/src/mm/traits.rs: how values of the types that implement `Trace` and `Scan` are traced, and
-- which slots they have. A value is the tree of what it consists of, with the addresses of its
-- parts. `none` is a panic, or the lack of an implementation.
mod Tests
pub mod Slots
use vmkit_core.Prelude.{
  ℕ, Bool, true, false, ◌&&◌, if◌then◌else◌, ◌==◌, List, [], ◌∷◌, ◌++◌, Option, none, some, ◌>>=◌,
}
use vmkit_core.Tracing.{
  Tracer, FatInternalPointer, trace_reference, trace_internal_pointer, trace_narrow,
  trace_fat_internal_pointer,
}

-- The types. `primitive` stands for those that the macro `impl_prim` lists.
pub data Ty : Type 0 where
  primitive : Ty
  object : Ty
  internal_pointer : Ty
  fat_internal_pointer : Ty
  narrow : Ty
  vec : Ty → Ty
  option : Ty → Ty
  result : Ty → Ty → Ty

-- `SupportsEnqueuing::VALUE`. There is no implementation for narrow pointers.
unfoldable pub supports_enqueuing : Ty → Option Bool
supports_enqueuing Ty.primitive = some true
supports_enqueuing Ty.object = some true
supports_enqueuing Ty.internal_pointer = some false
supports_enqueuing Ty.fat_internal_pointer = some true
supports_enqueuing Ty.narrow = none
supports_enqueuing (Ty.vec t) = supports_enqueuing t
supports_enqueuing (Ty.option t) = supports_enqueuing t
supports_enqueuing (Ty.result t u) = do
  a ← supports_enqueuing t
  b ← supports_enqueuing u
  some (a && b)

mutual
  pub data Value : Type 0 where
    primitive : Value
    object : ℕ → Value
    internal_pointer : ℕ → Value
    fat_internal_pointer : ℕ → Value
    narrow : ℕ → Value
    vec : Values → Value
    array : Values → Value
    slice : Values → Value
    absent : Value
    present : Value → Value
    boxed : Value → Value

  pub data Values : Type 0 where
    nil : Values
    cons : Value → Values → Values

-- `SlotExtra`, with the reads and writes of references, and of narrow and fat pointers.
-- `temporary` is the address of the copy of its object that a fat pointer returns.
pub record SlotExtra (S : Type 0) : Type 0 where
  pub from_vmkit_object : ℕ → ℕ
  pub from_narrow : ℕ → Option ℕ
  pub load : S → ℕ → ℕ
  pub store : S → ℕ → ℕ → S
  pub load_narrow : S → ℕ → ℕ
  pub store_narrow : S → ℕ → ℕ → S
  pub load_fat : S → ℕ → FatInternalPointer
  pub temporary : ℕ

module _ {S : Type 0} (slots : SlotExtra S) where
  -- `to_slot` of the types that implement `ToSlot`.
  pub to_slot : Value → Option (Option ℕ)
  to_slot primitive = some none
  to_slot (object a) = some (some (slots.from_vmkit_object a))
  to_slot (fat_internal_pointer a) = some (some (slots.from_vmkit_object slots.temporary))
  to_slot (narrow a) = slots.from_narrow a >>= λ slot. some (some slot)
  to_slot _ = none

  visit : Option ℕ → List ℕ
  visit none = []
  visit (some slot) = slot ∷ []

  -- `Scan::scan_object`: the slots that are visited, in their order.
  unfoldable mutual
    unfolding to_slot visit

    pub scan : Value → Option (List ℕ)
    scan primitive = some []
    scan (object a) = to_slot (object a) >>= λ slot. some (visit slot)
    scan (fat_internal_pointer a) = to_slot (fat_internal_pointer a) >>= λ slot. some (visit slot)
    scan (narrow a) = to_slot (narrow a) >>= λ slot. some (visit slot)
    scan (vec values) = scan_each values
    scan (array values) = scan_each values
    scan _ = none

    pub scan_each : Values → Option (List ℕ)
    scan_each nil = some []
    scan_each (cons x xs) = scan x >>= λ first. scan_each xs >>= λ rest. some (first ++ rest)

module _ {S : Type 0} (slots : SlotExtra S) (tracer : Tracer S) where
  -- `Trace for VMKitObject`, at an address.
  pub trace_object_at : ℕ → S → S
  unfolding trace_reference
  trace_object_at a s =
      let old = slots.load s a in
      let (new, s') = trace_reference tracer old s in
      if new == old then s' else slots.store s' a new

  -- `Trace::trace`.
  unfoldable mutual
    unfolding trace_object_at

    pub trace_value : Value → S → Option S
    trace_value primitive s = some s
    trace_value (object a) s = some (trace_object_at a s)
    trace_value (internal_pointer a) s = do
      (pointer, s') ← trace_internal_pointer tracer (slots.load s a) s
      some (slots.store s' a pointer)
    trace_value (fat_internal_pointer a) s =
        some (trace_fat_internal_pointer tracer (slots.load_fat s a) s).1
    trace_value (narrow a) s =
        let (new, s') = trace_narrow tracer (slots.load_narrow s a) s in
        some (slots.store_narrow s' a new)
    trace_value (vec values) s = trace_values values s
    trace_value (array values) s = trace_values values s
    trace_value (slice values) s = trace_values values s
    trace_value absent s = some s
    trace_value (present value) s = trace_value value s
    trace_value (boxed value) s = trace_value value s

    pub trace_values : Values → S → Option S
    trace_values nil s = some s
    trace_values (cons x xs) s = trace_value x s >>= λ s'. trace_values xs s'
