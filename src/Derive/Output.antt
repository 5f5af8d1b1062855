-- ===== src/Derive/Output.antt =====
-- `derive_gcmetadata` of vmkit-proc/src/lib.rs: the code that the macro emits, as data. A fragment
-- of code that comes from the attributes stays an expression or a type of `syn`.
pub mod Emitted
pub mod Total
pub mod Typed
use Prim.Native.String.{String}
use text.Mathlib.Text.{◌==◌}
use vmkit_core.Prelude.{
  Bool, true, false, not, ◌&&◌, ◌||◌, if◌then◌else◌, List, [], ◌∷◌, map, Option, none, some, ◌>>=◌,
}
use vmkit_core.Prelude.Sets.{member, insert}
use vmkit_core.Derive.{
  Syn, ArrayLike, ObjectAlignment, ObjectSize, ObjectTrace, GcMetadata, Field, Structure,
}
use vmkit_core.Derive.Outcome.{Error, Result, ok, err}
use vmkit_core.Derive.Attributes.{is_some, find_arraylike, find_gcmetadata}

-- `#getter`, or `self.#field as usize`, and `#getter`, or `self.#field.as_mut_ptr()`.
pub data Access (syn : Syn) : Type 0 where
  getter : syn.Expr → Access syn
  field : String → Access syn

-- `for i in 0..length`, over the elements behind `data_ptr`.
pub record Elements (syn : Syn) : Type 0 where
  pub length : Access syn
  pub data_ptr : Access syn
  pub element : syn.Ty

-- The `impl` of `Scan`, if `scan` is set, or of `Trace`. The method runs over the elements, and then
-- marks the fields that the arm of the variant binds.
pub record TraceImpl (syn : Syn) : Type 0 where
  pub scan : Bool
  pub elements : Option (Elements syn)
  pub arms : List (List Field)

-- The callbacks call the method of `Scan` or of `Trace`, or they are the expression.
pub data Callback (syn : Syn) : Type 0 where
  no_callback : Callback syn
  call_scan call_trace : Callback syn
  scan_slots trace_object : syn.Expr → Callback syn

pub data InstanceSize (syn : Syn) : Type 0 where
  zero_size size_of_self : InstanceSize syn
  size : syn.Expr → InstanceSize syn

pub data Alignment (syn : Syn) : Type 0 where
  align_of_self zero_alignment : Alignment syn
  const : syn.Expr → Alignment syn

pub data ComputeSize (syn : Syn) : Type 0 where
  no_function : ComputeSize syn
  expression : syn.Expr → ComputeSize syn
  of_elements : Access syn → syn.Ty → ComputeSize syn

-- The emitted code; `compute_alignment` is `None` in it.
pub record Output (syn : Syn) : Type 0 where
  pub trace : Callback syn
  pub instance_size : InstanceSize syn
  pub compute_size : ComputeSize syn
  pub alignment : Alignment syn
  pub trace_impl : Option (TraceImpl syn)

-- `Structure::filter` of `synstructure` keeps the bindings of every variant for which the closure
-- says so.
abbrev pub Filter : Type 0
Filter = (Field → Bool) → List (List Field) → List (List Field)

abbrev pub same_name : String → String → Bool
same_name x y = x == y

module _ (syn : Syn) where
  unfoldable pub skip : Option String → List String → List String
  unfolding insert
  skip none names = names
  skip (some name) names = (insert same_name names name).1

  unfoldable pub fields_to_skip : Option (ArrayLike syn) → List String
  unfolding skip
  fields_to_skip none = []
  fields_to_skip (some array) = skip array.length_field (skip array.data_field [])

  unfoldable pub is_ignored : List String → Bool
  is_ignored [] = false
  is_ignored (path ∷ paths) = path == "ignore_trace" || is_ignored paths

  unfoldable pub keeps : List String → Field → Bool
  unfolding is_ignored
  keeps names f =
      not (is_ignored f.attrs)
      && (elim f.ident [ none ↦ true | some name ↦ not (member same_name names name) ])

  -- A getter, or else a field, or else a panic.
  unfoldable pub access : Option syn.Expr → Option String → Option (Access syn)
  access (some e) f = some (Access.getter e)
  access none (some name) = some (Access.field name)
  access none none = none

  -- The loop over the elements that is added to the method, of an `arraylike` that is traced.
  unfoldable pub extra : Option (ArrayLike syn) → Option (Option (Elements syn))
  unfolding access
  extra none = some none
  extra (some array) =
      if array.trace
      then (do
        length ← access array.length_getter array.length_field
        data_ptr ← access array.data_getter array.data_field
        some (some (record { length = length; data_ptr = data_ptr; element = array.element_type })))
      else some none

  unfoldable pub trace_code :
      Filter
      → List (List Field)
      → Option (ArrayLike syn)
      → ObjectTrace syn
      → Option (Option (TraceImpl syn) × Callback syn)
  unfolding extra keeps fields_to_skip
  trace_code filter variants array ObjectTrace.no_trace = some (none, Callback.no_callback)
  trace_code filter variants array (ObjectTrace.auto scan) = do
    elements ← extra array
    some (
      some (record {
        scan = scan;
        elements = elements;
        arms = filter (keeps (fields_to_skip array)) variants;
      }),
      if scan then Callback.call_scan else Callback.call_trace,
    )
  trace_code filter variants array (ObjectTrace.trace scan e) =
      some (none, if scan then Callback.scan_slots e else Callback.trace_object e)

  unfoldable pub instance_size : Option (ArrayLike syn) → ObjectSize syn → InstanceSize syn
  instance_size (some array) ObjectSize.auto = InstanceSize.zero_size
  instance_size (some array) (ObjectSize.size e) = InstanceSize.zero_size
  instance_size array (ObjectSize.compute e) = InstanceSize.zero_size
  instance_size none ObjectSize.auto = InstanceSize.size_of_self
  instance_size none (ObjectSize.size e) = InstanceSize.size e

  unfoldable pub alignment : ObjectAlignment syn → Alignment syn
  alignment ObjectAlignment.auto = Alignment.align_of_self
  alignment (ObjectAlignment.const e) = Alignment.const e
  alignment (ObjectAlignment.compute e) = Alignment.zero_alignment

  unfoldable pub compute_size : Option (ArrayLike syn) → ObjectSize syn → Option (ComputeSize syn)
  unfolding access
  compute_size array (ObjectSize.compute e) = some (ComputeSize.expression e)
  compute_size (some array) declared = do
    length ← access array.length_getter array.length_field
    some (ComputeSize.of_elements length array.element_type)
  compute_size none declared = some ComputeSize.no_function

  -- What is emitted for attributes that were accepted; `none` is a panic of the macro.
  unfoldable pub emit :
      Filter → List (List Field) → Option (ArrayLike syn) → GcMetadata syn → Option (Output syn)
  unfolding trace_code instance_size alignment compute_size
  emit filter variants array gc = do
    (trace_impl, callback) ← trace_code filter variants array gc.trace
    compute ← compute_size array gc.size
    some (record {
      trace = callback;
      instance_size = instance_size array gc.size;
      compute_size = compute;
      alignment = alignment gc.alignment;
      trace_impl = trace_impl;
    })

  -- An error is emitted as `compile_error!`.
  pub derive_gcmetadata : Filter → Structure syn → Option (Result (Output syn))
  unfolding emit find_gcmetadata find_arraylike
  derive_gcmetadata filter s = elim (find_gcmetadata syn s.attrs) [
    | err e ↦ some (err e)
    | ok gc ↦ elim (find_arraylike syn s.attrs) [
      | err e ↦ some (err e)
      | ok array ↦ emit filter s.variants array gc >>= λ output. some (ok output)
    ]
  ]
