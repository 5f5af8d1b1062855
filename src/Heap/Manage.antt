-- ===== src/Heap/Manage.antt =====
-- vmkit/src/mm.rs: `manage`, which moves a value to the heap, and `object_reference_write`; and of
-- vmkit/src/object_model/object.rs the pointer `GcPtr`, which is the address of a value. A value of
-- `size_of` bytes is the number that it holds. `none` is a failed assertion.
pub mod Stored
mod Tests
use vmkit_core.Prelude.{ℕ, Bool, ◌+◌, if◌then◌else◌, Option, none, some, ◌==◌, leb, ◌>>=◌}
use vmkit_core.Memory.{Mem, load_bytes, store_bytes, store_word}
use vmkit_core.Heap.{Mmtk, Mutator, default, allocate_object, object_reference_write_post}

-- A type that implements `BuildMetadata`: `header` is the word of a header with the metadata that
-- is built for a value, and `static_header` with that of `build_metadata_static`.
pub record Managed : Type 0 where
  pub size_of : ℕ
  pub align_of : ℕ
  pub header : ℕ → ℕ
  pub static_header : ℕ

-- `GcPtr::from_address` and `GcPtr::as_ref`.
pub from_address : ℕ → Option ℕ
from_address address = if address == 0 then none else some address

pub as_ref : Managed → Mem → ℕ → ℕ
as_ref type m ptr = load_bytes type.size_of m ptr

module _ (mmtk : Mmtk) (type : Managed) where
  pub manage : (value size : ℕ) → Mutator → Option (ℕ × Mutator)
  unfolding from_address
  manage value size t =
      if leb type.size_of size
      then (do
        (object, u) ← allocate_object mmtk (type.header value) size type.align_of default t
        ptr ← from_address object
        some (ptr, record u { mem = store_bytes type.size_of u.mem object value }))
      else none

  pub manage_uninit : (size : ℕ) → Mutator → Option (ℕ × Mutator)
  unfolding from_address
  manage_uninit size t =
      if leb type.size_of size
      then (do
        (object, u) ← allocate_object mmtk type.static_header size type.align_of default t
        ptr ← from_address object
        some (ptr, u))
      else none

-- `object_reference_write`, whose pre-barrier does nothing: memory afterwards, and whether the
-- barrier took its slow path. The parameters are those of `object_reference_write_post`.
pub object_reference_write : Bool → ℕ → Mem → (src slot target : ℕ) → Option (Mem × Bool)
object_reference_write object_barrier base m src slot target =
    if target == 0
    then none
    else (let m' = store_word m slot target in
        some (m', object_reference_write_post object_barrier base m' src))
