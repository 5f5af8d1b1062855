-- ===== src/Object/CopyTo.antt =====
-- vmkit/src/object_model.rs: `copy_to`, by which mmtk moves an object to a place that it has chosen,
-- and the other functions that it calls before and after a move. `fill_alignment_gap` of mmtk, which
-- changes memory from one address up to another, is a parameter.
pub mod Compaction
mod Tests
use vmkit_core.Prelude.{ℕ, ◌+◌, if◌then◌else◌, ◌==◌, Option, some, ◌>>=◌}
use vmkit_core.Prelude.Words.{wrap, wrapping_sub}
use vmkit_core.Memory.{Mem}
use vmkit_core.Header.{header_back}
use vmkit_core.Object.{
  ObjectVm, alignment, bytes_used, bytes_required_when_copied, object_start,
  get_offset_for_alignment,
}
use vmkit_core.Object.Move.{to_object, move_object}

module _ (vm : ObjectVm) where
  unfoldable pub get_align_offset_when_copied : Mem → ℕ → Option ℕ
  get_align_offset_when_copied m object = get_offset_for_alignment vm m object

  unfoldable pub get_align_when_copied : Mem → ℕ → Option ℕ
  get_align_when_copied m object = alignment vm m object

  unfoldable pub get_current_size : Mem → ℕ → Option ℕ
  get_current_size m object = bytes_used vm m object

  unfoldable pub get_size_when_copied : Mem → ℕ → Option ℕ
  get_size_when_copied m object = bytes_required_when_copied vm m object

  pub ref_to_object_start : Mem → ℕ → Option ℕ
  ref_to_object_start m reference = object_start vm m reference

  unfoldable pub ref_to_header : ℕ → ℕ
  ref_to_header reference = wrapping_sub reference header_back

  -- The bytes of the object, and memory after the move, if there is one.
  moved_bytes : Mem → ℕ → ℕ → Option (ℕ × Mem)
  moved_bytes m from to =
      if from == to then (bytes_used vm m from >>= λ bytes. some (bytes, m)) else (do
        bytes ← bytes_required_when_copied vm m to
        (object, m') ← move_object vm m from (to_object to) bytes
        some (bytes, m'))

  -- The address behind the object, and memory afterwards.
  pub copy_to : (fill_alignment_gap : Mem → ℕ → ℕ → Mem) → Mem → ℕ → ℕ → ℕ → Option (ℕ × Mem)
  unfolding moved_bytes ref_to_object_start
  copy_to fill_alignment_gap m from to region = do
    (bytes, m') ← moved_bytes m from to
    start ← ref_to_object_start m' to
    some (wrap (start + bytes), fill_alignment_gap m' region start)
