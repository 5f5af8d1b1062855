-- ===== src/Derive.antt =====
-- vmkit-proc/src/lib.rs: the macro that derives the `GCMetadata` of a type from its attributes. This
-- file has its data and what it uses of `syn` and `synstructure`, which are the record `Syn`; the
-- children parse the attributes, build the output and say what the generated code computes.
pub mod Outcome
pub mod Attributes
pub mod Output
pub mod Runs
mod Tests
use Prim.Native.String.{String}
use vmkit_core.Prelude.{◌≡◌, Bool, List, Option, none, map}
use vmkit_core.Derive.Outcome.{Result, ok}

-- A `ParseStream` is a value, and a parse gives the stream behind what it read. The path of a nested
-- meta is its text. `parse_attribute logic s attr` is `attr.parse_nested_meta(logic)`, and
-- `parse_nested_meta` is that of a nested meta; the closure changes a state of any type.
pub record Syn : Type 1 where
  pub Input : Type 0
  pub Attribute : Type 0
  pub Expr : Type 0
  pub Ty : Type 0
  pub attribute_path : Attribute → String
  pub peek_eq : Input → Bool
  pub peek_paren : Input → Bool
  pub is_empty : Input → Bool
  pub parse_eq : Input → Result Input
  pub parse_ident : Input → Result (String × Input)
  pub parse_bool : Input → Result (Bool × Input)
  pub parse_expr : Input → Result (Expr × Input)
  pub parse_type : Input → Result (Ty × Input)
  pub parse_nested_meta :
      {S : Type 0} → (S → String → Input → Result (S × Input)) → S → Input → Result (S × Input)
  pub parse_attribute :
      {S : Type 0} → (S → String → Input → Result (S × Input)) → S → Attribute → Result S
  -- `syn::parse_str("u8")`
  pub u8 : Ty

-- Both calls run the closure on one nested meta after the other and stop at its first error: what
-- the closure preserves is preserved.
pub record SynLaws (syn : Syn) : Type 1 where
  pub nested :
      {S : Type 0} (P : S → Type 0) (logic : S → String → syn.Input → Result (S × syn.Input))
      → ((s s' : S) (path : String) (i i' : syn.Input) → P s → logic s path i ≡ ok (s', i') → P s')
      → (s s' : S) (i i' : syn.Input) → P s
      → syn.parse_nested_meta logic s i ≡ ok (s', i')
      → P s'
  pub attribute :
      {S : Type 0} (P : S → Type 0) (logic : S → String → syn.Input → Result (S × syn.Input))
      → ((s s' : S) (path : String) (i i' : syn.Input) → P s → logic s path i ≡ ok (s', i') → P s')
      → (s s' : S) (attr : syn.Attribute) → P s
      → syn.parse_attribute logic s attr ≡ ok s'
      → P s'

-- `ArrayLike`, and the variables that `find_arraylike` collects before it.
pub record ArrayLike (syn : Syn) : Type 0 where
  pub length_field : Option String
  pub length_getter : Option syn.Expr
  pub length_setter : Option syn.Expr
  pub element_type : syn.Ty
  pub data_field : Option String
  pub data_getter : Option syn.Expr
  pub trace : Bool

pub data ObjectAlignment (syn : Syn) : Type 0 where
  auto : ObjectAlignment syn
  const : syn.Expr → ObjectAlignment syn
  compute : syn.Expr → ObjectAlignment syn

pub data ObjectSize (syn : Syn) : Type 0 where
  auto : ObjectSize syn
  size : syn.Expr → ObjectSize syn
  compute : syn.Expr → ObjectSize syn

-- The flag says that slots are scanned.
pub data ObjectTrace (syn : Syn) : Type 0 where
  no_trace : ObjectTrace syn
  auto : Bool → ObjectTrace syn
  trace : Bool → syn.Expr → ObjectTrace syn

pub record GcMetadata (syn : Syn) : Type 0 where
  pub vm : syn.Ty
  pub alignment : ObjectAlignment syn
  pub size : ObjectSize syn
  pub trace : ObjectTrace syn

-- A field of a variant, with the paths of its attributes; it has no name in a tuple.
pub record Field : Type 0 where
  pub ident : Option String
  pub attrs : List String

-- A struct has one variant.
pub record Structure (syn : Syn) : Type 0 where
  pub attrs : List syn.Attribute
  pub variants : List (List Field)
