-- ===== src/Derive/Attributes.antt =====
-- `find_arraylike` and `find_gcmetadata` of vmkit-proc/src/lib.rs. The variables that the closures
-- assign are a record, and the `if`s of a closure are its steps, in their order.
pub mod Sources
use Prim.Native.String.{String}
use text.Mathlib.Text.{◌==◌}
use vmkit_core.Prelude.{Bool, true, false, ◌||◌, if◌then◌else◌, List, [], ◌∷◌, Option, none, some}
use vmkit_core.Derive.{Syn, ArrayLike, ObjectAlignment, ObjectSize, ObjectTrace, GcMetadata}
use vmkit_core.Derive.Outcome.{
  Error, Result, ok, err, ◌>>=◌, multiple_length_fields, multiple_length_getters,
  multiple_length_setters, unknown_length_field, unknown_length_attribute, multiple_data_fields,
  multiple_data_getters, unknown_data_field, multiple_data_types, missing_data_type,
  multiple_vm_fields, multiple_alignment_fields, multiple_size_fields, multiple_trace_fields,
  missing_gcmetadata, vm_not_specified,
}

abbrev pub is_some {ℓ} : {A : Type ℓ} → Option A → Bool
is_some none = false
is_some (some x) = true

abbrev pub unwrap_or {ℓ} : {A : Type ℓ} → Option A → A → A
unwrap_or none d = d
unwrap_or (some x) d = x

abbrev pub ok_or {ℓ} : {A : Type ℓ} → Option A → Error → Result A
ok_or none e = err e
ok_or (some x) e = ok x

pub record ArrayState (syn : Syn) : Type 0 where
  pub length_field : Option String
  pub length_getter : Option syn.Expr
  pub length_setter : Option syn.Expr
  pub element_type : Option syn.Ty
  pub data_field : Option String
  pub data_getter : Option syn.Expr
  pub trace : Option Bool

pub record GcState (syn : Syn) : Type 0 where
  pub vm : Option syn.Ty
  pub alignment : Option (ObjectAlignment syn)
  pub size : Option (ObjectSize syn)
  pub trace : Option (ObjectTrace syn)

module _ (syn : Syn) where
  abbrev pub no_array : ArrayState syn
  no_array = record {
    length_field = none;
    length_getter = none;
    length_setter = none;
    element_type = none;
    data_field = none;
    data_getter = none;
    trace = none;
  }

  abbrev pub no_gc : GcState syn
  no_gc = record { vm = none; alignment = none; size = none; trace = none }

  -- The closure that a parse runs on each nested meta: the variables, its path and what follows it.
  abbrev pub Logic : Type 0 → Type 0
  Logic S = S → String → syn.Input → Result (S × syn.Input)

  pub len_meta : Logic (ArrayState syn)
  len_meta s path i =
      if path == "get"
      then (if is_some s.length_getter
          then err multiple_length_getters
          else syn.parse_expr i >>= λ (e, j). ok (record s { length_getter = some e }, j))
      else if path == "set"
      then (if is_some s.length_setter
          then err multiple_length_setters
          else syn.parse_expr i >>= λ (e, j). ok (record s { length_setter = some e }, j))
      else err unknown_length_field

  pub data_meta : Logic (ArrayState syn)
  data_meta s path i =
      if path == "get"
      then (if is_some s.data_getter
          then err multiple_data_getters
          else syn.parse_expr i >>= λ (e, j). ok (record s { data_getter = some e }, j))
      else err unknown_data_field

  unfoldable pub array_trace : Logic (ArrayState syn)
  array_trace s path i =
      if path == "trace"
      then (do
        j ← syn.parse_eq i
        (value, k) ← syn.parse_bool j
        ok (record s { trace = if value then some true else some false }, k))
      else ok (s, i)

  unfoldable pub array_len : Logic (ArrayState syn)
  array_len s path i =
      if path == "len"
      then (if is_some s.length_field || is_some s.length_getter || is_some s.length_setter
          then err multiple_length_fields
          else if syn.peek_eq i
          then (do
            j ← syn.parse_eq i
            (field, k) ← syn.parse_ident j
            if is_some s.length_field
                then err multiple_length_fields
                else ok (record s { length_field = some field }, k))
          else if syn.peek_paren i
          then syn.parse_nested_meta len_meta s i
          else err unknown_length_attribute)
      else ok (s, i)

  unfoldable pub array_data : Logic (ArrayState syn)
  array_data s path i =
      if path == "data"
      then (if is_some s.data_field || is_some s.data_getter
          then err multiple_data_fields
          else if syn.peek_paren i
          then syn.parse_nested_meta data_meta s i
          else syn.parse_ident i >>= λ (field, j). ok (record s { data_field = some field }, j))
      else ok (s, i)

  unfoldable pub array_data_type : Logic (ArrayState syn)
  array_data_type s path i =
      if path == "data_type"
      then (if is_some s.element_type then err multiple_data_types else (do
        j ← syn.parse_eq i
        (type, k) ← syn.parse_type j
        ok (record s { element_type = some type }, k)))
      else ok (s, i)

  unfoldable pub arraylike_meta : Logic (ArrayState syn)
  arraylike_meta s path i = do
    (s1, i1) ← array_trace s path i
    (s2, i2) ← array_len s1 path i1
    (s3, i3) ← array_data s2 path i2
    array_data_type s3 path i3

  -- The loop over the attributes, with the flag `has`.
  unfoldable pub find_attributes :
      {S : Type 0} → String → Logic S → List syn.Attribute → Bool × S → Result (Bool × S)
  find_attributes name logic [] (has, s) = ok (has, s)
  find_attributes name logic (attr ∷ attrs) (has, s) =
      if syn.attribute_path attr == name
      then (syn.parse_attribute logic s attr >>= λ s'. find_attributes name logic attrs (true, s'))
      else find_attributes name logic attrs (has, s)

  unfoldable pub array_of : Bool × ArrayState syn → Result (Option (ArrayLike syn))
  array_of (false, s) = ok none
  array_of (true, s) = do
    type ← ok_or s.element_type missing_data_type
    ok (
        some (record {
          length_field = s.length_field;
          length_getter = s.length_getter;
          length_setter = s.length_setter;
          element_type = type;
          data_field = s.data_field;
          data_getter = s.data_getter;
          trace = unwrap_or s.trace true;
        }))

  unfoldable pub find_arraylike : List syn.Attribute → Result (Option (ArrayLike syn))
  find_arraylike attrs =
      find_attributes "arraylike" arraylike_meta attrs (false, no_array) >>= array_of

  unfoldable pub gc_vm : Logic (GcState syn)
  gc_vm s path i =
      if path == "vm"
      then (if is_some s.vm then err multiple_vm_fields else (do
        j ← syn.parse_eq i
        (type, k) ← syn.parse_type j
        ok (record s { vm = some type }, k)))
      else ok (s, i)

  unfoldable pub gc_align : Logic (GcState syn)
  gc_align s path i =
      if path == "align"
      then (if is_some s.alignment
          then err multiple_alignment_fields
          else if syn.peek_paren i
          then (do
            (e, j) ← syn.parse_expr i
            ok (record s { alignment = some (ObjectAlignment.const e) }, j))
          else (do
            j ← syn.parse_eq i
            (e, k) ← syn.parse_expr j
            ok (record s { alignment = some (ObjectAlignment.compute e) }, k)))
      else ok (s, i)

  unfoldable pub gc_size : Logic (GcState syn)
  gc_size s path i =
      if path == "size"
      then (if is_some s.size
          then err multiple_size_fields
          else if syn.peek_paren i
          then (do (e, j) ← syn.parse_expr i; ok (record s { size = some (ObjectSize.size e) }, j))
          else (do
            j ← syn.parse_eq i
            (e, k) ← syn.parse_expr j
            ok (record s { size = some (ObjectSize.compute e) }, k)))
      else ok (s, i)

  -- `trace` and `scan`, which differ in the flag.
  unfoldable pub gc_trace_as : Bool → GcState syn → syn.Input → Result (GcState syn × syn.Input)
  gc_trace_as scan s i =
      if is_some s.trace
      then err multiple_trace_fields
      else if syn.is_empty i
      then ok (record s { trace = some (ObjectTrace.auto scan) }, i)
      else (do
        j ← syn.parse_eq i
        (e, k) ← syn.parse_expr j
        ok (record s { trace = some (ObjectTrace.trace scan e) }, k))

  unfoldable pub gc_trace : Logic (GcState syn)
  gc_trace s path i =
      if path == "trace"
      then gc_trace_as false s i
      else if path == "notrace"
      then (if is_some s.trace
          then err multiple_trace_fields
          else ok (record s { trace = some ObjectTrace.no_trace }, i))
      else if path == "scan"
      then gc_trace_as true s i
      else ok (s, i)

  unfoldable pub gcmetadata_meta : Logic (GcState syn)
  gcmetadata_meta s path i = do
    (s1, i1) ← gc_vm s path i
    (s2, i2) ← gc_align s1 path i1
    (s3, i3) ← gc_size s2 path i2
    gc_trace s3 path i3

  unfoldable pub gc_of : Bool × GcState syn → Result (GcMetadata syn)
  gc_of (false, s) = err missing_gcmetadata
  gc_of (true, s) = do
    vm ← ok_or s.vm vm_not_specified
    ok (record {
      vm = vm;
      alignment = unwrap_or s.alignment ObjectAlignment.auto;
      size = unwrap_or s.size ObjectSize.auto;
      trace = unwrap_or s.trace (ObjectTrace.auto false);
    })

  unfoldable pub find_gcmetadata : List syn.Attribute → Result (GcMetadata syn)
  find_gcmetadata attrs =
      find_attributes "gcmetadata" gcmetadata_meta attrs (false, no_gc) >>= gc_of
