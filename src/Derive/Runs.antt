-- ===== src/Derive/Runs.antt =====
-- What the code emitted by vmkit-proc/src/lib.rs computes when it runs. A fragment from the attributes
-- means what the record `Meaning` says.
pub mod Sizes
pub mod Visits
use Prim.Native.String.{String}
use vmkit_core.Prelude.{
  ℕ, zero, suc, ◌+◌, ◌*◌, List, [], ◌∷◌, ◌++◌, map, Option, none, some, get_elem?,
}
use vmkit_core.Prelude.Words.{wrap}
use vmkit_core.Memory.{Mem}
use vmkit_core.Object
use vmkit_core.Derive.{Syn, Field}
use vmkit_core.Derive.Output.{
  Access, Elements, TraceImpl, InstanceSize, Alignment, ComputeSize, Output,
}

-- `constant` is an expression in the `static METADATA`, `compute` one that reads `this`, the object
-- at an address; `read_field` is `this.#field as usize` and `field_ptr` is `self.#field.as_mut_ptr()`.
pub record Meaning (syn : Syn) : Type 0 where
  pub constant : syn.Expr → ℕ
  pub compute : syn.Expr → Mem → ℕ → ℕ
  pub read_field : String → Mem → ℕ → ℕ
  pub field_ptr : String → Mem → ℕ → ℕ
  pub size_of : syn.Ty → ℕ
  pub size_of_self : ℕ
  pub align_of_self : ℕ

-- A value that the derived method hands to `Scan::scan_object` or `Trace::trace_object`: the element
-- at an address or a field that the arm binds.
pub data Visit : Type 0 where
  element : ℕ → Visit
  field : Field → Visit

module _ {syn : Syn} (meaning : Meaning syn) where
  pub access_value : Access syn → Mem → ℕ → ℕ
  access_value (Access.getter e) m obj = meaning.compute e m obj
  access_value (Access.field name) m obj = meaning.read_field name m obj

  pub data_value : Access syn → Mem → ℕ → ℕ
  data_value (Access.getter e) m obj = meaning.compute e m obj
  data_value (Access.field name) m obj = meaning.field_ptr name m obj

  pub instance_size_value : InstanceSize syn → ℕ
  instance_size_value InstanceSize.zero_size = 0
  instance_size_value InstanceSize.size_of_self = meaning.size_of_self
  instance_size_value (InstanceSize.size e) = meaning.constant e

  pub compute_size_value : ComputeSize syn → Option (Mem → ℕ → ℕ)
  unfolding access_value
  compute_size_value ComputeSize.no_function = none
  compute_size_value (ComputeSize.expression e) = some (meaning.compute e)
  compute_size_value (ComputeSize.of_elements length type) = some (λ m obj.
      wrap (meaning.size_of_self + wrap (access_value length m obj * meaning.size_of type)))

  pub alignment_value : Alignment syn → ℕ
  alignment_value Alignment.align_of_self = meaning.align_of_self
  alignment_value Alignment.zero_alignment = 0
  alignment_value (Alignment.const e) = meaning.constant e

  -- The `static METADATA` of the derived `gc_metadata()`.
  pub gc_metadata : Output syn → Object.GcMetadata
  unfolding instance_size_value compute_size_value alignment_value
  gc_metadata o = record {
    instance_size = instance_size_value o.instance_size;
    compute_size = compute_size_value o.compute_size;
    alignment = alignment_value o.alignment;
    compute_alignment = none;
  }

  -- `for i in 0..length`, from the index `i`; the body visits `data.add(i)`.
  pub visit_elements : (ptr size i count : ℕ) → List Visit
  visit_elements ptr size i zero = []
  visit_elements ptr size i (suc count) =
      Visit.element (wrap (ptr + i * size)) ∷ visit_elements ptr size (suc i) count

  pub run_elements : Option (Elements syn) → Mem → ℕ → List Visit
  unfolding visit_elements access_value data_value
  run_elements none m obj = []
  run_elements (some e) m obj =
      visit_elements (data_value e.data_ptr m obj) (meaning.size_of e.element) 0
        (access_value e.length m obj)

  -- The derived method on an object of the given variant.
  pub run_impl : TraceImpl syn → Mem → (obj variant : ℕ) → List Visit
  unfolding run_elements
  run_impl impl m obj variant =
      run_elements impl.elements m obj
      ++ (elim (get_elem? impl.arms variant) [ none ↦ [] | some bound ↦ map Visit.field bound ])
