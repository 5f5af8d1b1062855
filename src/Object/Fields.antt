-- ===== src/Object/Fields.antt =====
-- The fields of an object in vmkit/src/object_model/object.rs. A value is its bit pattern, whatever
-- its type, and an offset is the pattern of an `isize`; whether an access is atomic makes no
-- difference to one thread. The assertions of a debug build are left out.
pub mod Access
use vmkit_core.Prelude.{
  ℕ, ◌+◌, ◌*◌, ◌^◌, Bool, true, false, not, if◌then◌else◌, Option, none, some, ◌==◌,
}
use vmkit_core.Prelude.Words.{wrap}
use vmkit_core.Memory.{Mem, load_bytes, store_bytes}
use vmkit_core.Heap.{object_reference_write_post}
use vmkit_core.Compression.{CompressedOps, decode}

-- The types that have accessors.
pub data Primitive : Type 0 where
  u8 u16 u32 u64 i8 i16 i32 i64 f32 f64 isize usize : Primitive

pub size_of : Primitive → ℕ
size_of u8 = 1
size_of i8 = 1
size_of u16 = 2
size_of i16 = 2
size_of u32 = 4
size_of i32 = 4
size_of f32 = 4
size_of _ = 8

abbrev pub field_address : (object offset : ℕ) → ℕ
field_address object offset = wrap (object + offset)

pub get_field_primitive : Primitive → Mem → (object offset : ℕ) → ℕ
unfolding size_of
get_field_primitive p m object offset = load_bytes (size_of p) m (field_address object offset)

pub set_field_primitive : Primitive → Mem → (object offset value : ℕ) → Mem
unfolding size_of
set_field_primitive p m object offset value =
    store_bytes (size_of p) m (field_address object offset) value

pub get_field_bool : Mem → (object offset : ℕ) → Bool
unfolding get_field_primitive
get_field_bool m object offset = not (get_field_primitive u8 m object offset == 0)

pub set_field_bool : Mem → (object offset : ℕ) → Bool → Mem
unfolding set_field_primitive
set_field_bool m object offset value =
    set_field_primitive u8 m object offset (if value then 1 else 0)

pub get_field_object : Mem → (object offset : ℕ) → ℕ
unfolding get_field_primitive
get_field_object m object offset = get_field_primitive usize m object offset

pub set_field_object_no_write_barrier : Mem → (object offset value : ℕ) → Mem
unfolding set_field_primitive
set_field_object_no_write_barrier m object offset value =
    set_field_primitive usize m object offset value

-- The object barrier, with the address of the log bits, and mmtk's `object_reference_write_slow`
-- for a source, a slot and the target that is not null.
pub record Barrier : Type 0 where
  pub object_barrier : Bool
  pub side_metadata_base : ℕ
  pub write_slow : (src slot : ℕ) → Option ℕ → Mem → Mem

module _ (barrier : Barrier) where
  -- `object_reference_write_post` with its effect; the write barrier before a store does nothing.
  pub write_post : (src slot target : ℕ) → Mem → Mem
  unfolding object_reference_write_post
  write_post src slot target m =
      if object_reference_write_post barrier.object_barrier barrier.side_metadata_base m src
      then barrier.write_slow src slot (if target == 0 then none else some target) m
      else m

  unfoldable pub set_field_object_tagged : Mem → (object offset value target : ℕ) → Mem
  unfolding set_field_primitive write_post
  set_field_object_tagged m object offset value target =
      write_post object (field_address object offset) target
        (set_field_primitive usize m object offset value)

  pub set_field_object : Mem → (object offset value : ℕ) → Mem
  unfolding set_field_object_no_write_barrier write_post
  set_field_object m object offset value =
      write_post object (field_address object offset) value
        (set_field_object_no_write_barrier m object offset value)

  -- The raw value of a narrow pointer is stored.
  unfoldable pub set_field_narrow_tagged :
      CompressedOps → Mem → (object offset value narrow : ℕ) → Mem
  unfolding set_field_primitive write_post decode
  set_field_narrow_tagged ops m object offset value narrow =
      write_post object (field_address object offset) (decode ops narrow)
        (set_field_primitive u32 m object offset value)

  pub set_field_narrow : CompressedOps → Mem → (object offset narrow : ℕ) → Mem
  unfolding set_field_primitive write_post decode
  set_field_narrow ops m object offset narrow =
      write_post object (field_address object offset) (decode ops narrow)
        (set_field_primitive u32 m object offset narrow)

pub get_field_narrow : Mem → (object offset : ℕ) → ℕ
unfolding get_field_primitive
get_field_narrow m object offset = get_field_primitive u32 m object offset

unfoldable pub set_field_narrow_no_write_barrier : Mem → (object offset narrow : ℕ) → Mem
unfolding set_field_primitive
set_field_narrow_no_write_barrier m object offset narrow =
    set_field_primitive u32 m object offset narrow
