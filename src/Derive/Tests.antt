-- ===== src/Derive/Tests.antt =====
-- The macro on the attributes of concrete types.
mod Parser
use Prim.Native.String.{String}
use text.Mathlib.Text.{◌==◌}
use vmkit_core.Prelude.{
  ℕ, zero, suc, ◌≡◌, refl, subst, ◌⊎◌, inl, inr, Bool, true, false, if◌then◌else◌, List, [], ◌∷◌,
  Option, none, some, arith, ◌+◌, map, ◌++◌,
}
use vmkit_core.Prelude.Words.{wrap}
use vmkit_core.Derive.{
  Syn, SynLaws, ArrayLike, ObjectAlignment, ObjectSize, ObjectTrace, GcMetadata, Field, Structure,
}
use vmkit_core.Memory.{Mem, load_bytes}
use vmkit_core.Header.{metadata, hash_state}
use vmkit_core.Header.Digits.{digits, decode}
use vmkit_core.Tlab.Multiples.{multiple_from}
use vmkit_core.Object
use vmkit_core.Object.{ObjectVm, bytes_used, hashcode_overhead}
use vmkit_core.Derive.Tests.Parser.{
  Token, word, eq, comma, lparen, rparen, boolean, expr, type, Tokens, small_syn, small_syn-laws,
  nested_metas, attribute_metas,
}
use vmkit_core.Derive.Outcome.{Result, ok, err, syn_error, ◌>>=◌, >>=-eq-ok}
use vmkit_core.Derive.Attributes.Sources.{find_arraylike-one_source}
use vmkit_core.Derive.Attributes.{
  find_arraylike, find_gcmetadata, find_attributes, arraylike_meta, array_trace, array_len,
  array_data, array_data_type, array_of, gcmetadata_meta, gc_vm, gc_align, gc_size, gc_trace,
  gc_trace_as, gc_of,
}
use vmkit_core.Derive.Output.{
  Filter, Output, emit, TraceImpl, Elements, Access, Callback, InstanceSize, Alignment, ComputeSize,
  access, extra, trace_code, instance_size, alignment, compute_size, derive_gcmetadata, keeps,
  fields_to_skip, skip, is_ignored,
}
use vmkit_core.Derive.Output.Emitted.{derive_gcmetadata-of_emit}
use vmkit_core.Derive.Output.Total.{Missing, derive_gcmetadata-panics_iff}
use vmkit_core.Derive.Output.Typed.{IsTyped, derive_gcmetadata-IsTyped}
use vmkit_core.Derive.Runs.{Meaning, Visit, run_impl, gc_metadata}
use vmkit_core.Derive.Runs.Sizes.{bytes_used-derived, alignment-derived, declared_size}
use vmkit_core.Derive.Runs.Visits.{
  FilterLaws, retain, traced_elements, is_traced, derive_gcmetadata-visits,
}

-- `#[gcmetadata(vm = T, size(3), scan)]`
abbrev scanned : String × Tokens
scanned = (
  "gcmetadata",
  word "vm"
      ∷ eq
      ∷ type 7
      ∷ comma
      ∷ word "size"
      ∷ lparen
      ∷ expr 3
      ∷ rparen
      ∷ comma
      ∷ word "scan"
      ∷ [],
)

-- `#[arraylike(len = length, data items, data_type = u16)]`
abbrev array_by_fields : String × Tokens
array_by_fields = (
  "arraylike",
  word "len"
      ∷ eq
      ∷ word "length"
      ∷ comma
      ∷ word "data"
      ∷ word "items"
      ∷ comma
      ∷ word "data_type"
      ∷ eq
      ∷ type 2
      ∷ [],
)

abbrev by_fields : ArrayLike small_syn
by_fields = record {
  length_field = some "length";
  length_getter = none;
  length_setter = none;
  element_type = 2;
  data_field = some "items";
  data_getter = none;
  trace = true;
}

array_by_fields_found :
    find_arraylike small_syn (scanned ∷ array_by_fields ∷ []) ≡ ok (some by_fields)
unfolding find_arraylike attribute_metas nested_metas find_attributes arraylike_meta array_trace
    array_len array_data array_data_type array_of
array_by_fields_found = refl

by_fields_from_one_source :
    ((by_fields.length_field ≡ none)
      ⊎ ((by_fields.length_getter ≡ none) × (by_fields.length_setter ≡ none)))
    × ((by_fields.data_field ≡ none) ⊎ (by_fields.data_getter ≡ none))
by_fields_from_one_source =
    find_arraylike-one_source small_syn small_syn-laws (scanned ∷ array_by_fields ∷ []) by_fields
      array_by_fields_found

abbrev scanned_metadata : GcMetadata small_syn
scanned_metadata = record {
  vm = 7;
  alignment = ObjectAlignment.auto;
  size = ObjectSize.size 3;
  trace = ObjectTrace.auto true;
}

scanned_found : find_gcmetadata small_syn (scanned ∷ array_by_fields ∷ []) ≡ ok scanned_metadata
unfolding find_gcmetadata attribute_metas nested_metas find_attributes gcmetadata_meta gc_vm
    gc_align gc_size gc_trace gc_trace_as gc_of
scanned_found = refl

abbrev named : String → List String → Field
named name attrs = record { ident = some name; attrs = attrs }

abbrev header_field : Field
header_field = named "header" ("doc" ∷ [])

abbrev fields : List Field
fields =
    header_field ∷ named "length" [] ∷ named "cache" ("ignore_trace" ∷ []) ∷ named "items" [] ∷ []

abbrev an_array : Structure small_syn
an_array = record { attrs = scanned ∷ array_by_fields ∷ []; variants = fields ∷ [] }

abbrev keep_all_of : Filter
keep_all_of keep variants = map (retain keep) variants

keep_all_of-laws : FilterLaws keep_all_of
keep_all_of-laws = record { filter-map = λ keep variants. refl }

abbrev array_output : Output small_syn
array_output = record {
  trace = Callback.call_scan;
  instance_size = InstanceSize.zero_size;
  compute_size = ComputeSize.of_elements (Access.field "length") 2;
  alignment = Alignment.align_of_self;
  trace_impl = some (record {
    scan = true;
    elements =
        some
          (record { length = Access.field "length"; data_ptr = Access.field "items"; element = 2 });
    arms = (header_field ∷ []) ∷ [];
  });
}

array_derived : derive_gcmetadata small_syn keep_all_of an_array ≡ some (ok array_output)
unfolding emit trace_code extra access keeps fields_to_skip skip is_ignored instance_size
    compute_size alignment
array_derived =
    derive_gcmetadata-of_emit keep_all_of an_array array_output scanned_metadata (some by_fields)
      scanned_found array_by_fields_found refl

derive_gcmetadata-IsTyped_example : IsTyped array_output.trace_impl array_output.trace
derive_gcmetadata-IsTyped_example =
    derive_gcmetadata-IsTyped keep_all_of an_array array_output array_derived

abbrev empty_memory : Mem
empty_memory a = 0

-- Expressions are their values; the field `length` is 5 and the items are at 4096.
abbrev plain : Meaning small_syn
plain = record {
  constant = λ e. e;
  compute = λ e m obj. e;
  read_field = λ name m obj. 5;
  field_ptr = λ name m obj. 4096;
  size_of = λ t. t;
  size_of_self = 24;
  align_of_self = 8;
}

derive_gcmetadata-visits_example :
    (impl : TraceImpl small_syn) × (array_output.trace_impl ≡ some impl)
    × (impl.scan ≡ true)
    × (run_impl plain impl empty_memory 64 0
        ≡ traced_elements plain (some by_fields) empty_memory 64
          ++ map Visit.field (retain (is_traced plain (some by_fields)) fields))
derive_gcmetadata-visits_example =
    derive_gcmetadata-visits plain keep_all_of keep_all_of-laws an_array array_output
      scanned_metadata (some by_fields) true empty_memory 64 0 fields scanned_found refl
      array_by_fields_found array_derived refl

-- A VM whose metadata is always the derived one, and a header of zeros.
abbrev array_vm : ObjectVm
array_vm = record {
  bit_fields = digits;
  address_based_hashing = true;
  gc_metadata = λ bits. gc_metadata plain array_output;
  compute_hashcode = λ m o. o;
  max_alignment = 32;
  raw_align_up = multiple_from;
}

zero_metadata : metadata array_vm.bit_fields true empty_memory 64 ≡ some 0
unfolding metadata decode load_bytes
zero_metadata = refl

zero_overhead : hashcode_overhead array_vm empty_memory 64 false ≡ some 0
unfolding hashcode_overhead hash_state decode load_bytes
zero_overhead = refl

bytes_used-derived_example :
    bytes_used array_vm empty_memory 64
    ≡ some (
        multiple_from
          (wrap
            (0 + declared_size plain (some by_fields) scanned_metadata.size empty_memory 64 + 8))
          8)
bytes_used-derived_example =
    bytes_used-derived plain array_vm keep_all_of an_array array_output scanned_metadata
      (some by_fields) empty_memory 64 0 0 scanned_found array_by_fields_found array_derived
      zero_metadata refl zero_overhead

array_aligned_to_8 : Object.alignment array_vm empty_memory 64 ≡ some 8
array_aligned_to_8 =
    alignment-derived plain array_vm keep_all_of an_array array_output scanned_metadata empty_memory
      64 0 scanned_found array_derived zero_metadata refl

-- `#[arraylike(data items, data_type = u16)]`, which has no length.
abbrev no_length : Structure small_syn
no_length = record {
  attrs =
      scanned
      ∷ ("arraylike", word "data" ∷ word "items" ∷ comma ∷ word "data_type" ∷ eq ∷ type 2 ∷ [])
      ∷ [];
  variants = fields ∷ [];
}

derive_gcmetadata-panics_iff_example :
    (derive_gcmetadata small_syn keep_all_of no_length ≡ none
      → (gc : GcMetadata small_syn) × (a : ArrayLike small_syn) × (find_gcmetadata small_syn
            no_length.attrs
          ≡ ok gc)
        × (find_arraylike small_syn no_length.attrs ≡ ok (some a))
        × Missing gc a)
    × ((gc : GcMetadata small_syn) (a : ArrayLike small_syn)
        → find_gcmetadata small_syn no_length.attrs ≡ ok gc
        → find_arraylike small_syn no_length.attrs ≡ ok (some a)
        → Missing gc a
        → derive_gcmetadata small_syn keep_all_of no_length ≡ none)
derive_gcmetadata-panics_iff_example = derive_gcmetadata-panics_iff keep_all_of no_length
