-- ===== src/Compression.antt =====
-- vmkit/src/object_model/compression.rs, and `VMKitNarrow` of object.rs: compressed pointers. The
-- bounds of the heap, which mmtk gives, are parameters; arithmetic on addresses wraps as in a
-- release build.
pub mod RoundTrip
mod Tests
use vmkit_core.Prelude.{
  ℕ, ◌+◌, ◌-◌, ◌*◌, ◌/◌, ◌%◌, ◌^◌, Bool, true, false, if◌then◌else◌, ◌==◌, leb, ltb,
}
use vmkit_core.Prelude.Words.{wrap, wrapping_sub}

abbrev pub unscaled_op_heap_max : ℕ
unscaled_op_heap_max = 2 ^ 32

pub record CompressedOps : Type 0 where
  pub base : ℕ
  pub shift : ℕ
  pub range : ℕ × ℕ

-- `min_alignment_zeros` is `VM::MIN_ALIGNMENT.trailing_zeros()`.
pub init : (tagged_pointers : Bool) → (min_alignment_zeros start end : ℕ) → CompressedOps
init tagged_pointers min_alignment_zeros start end =
    if tagged_pointers
    then record { base = wrapping_sub start 4096; shift = 2; range = (start, end) }
    else (let shift = if ltb unscaled_op_heap_max end then min_alignment_zeros else 0 in
        let max = 2 ^ 32 * 2 ^ min_alignment_zeros in
        let base = if leb end max then 0 else wrapping_sub start 4096 in
        record { base = base; shift = shift; range = (start, end) })

-- `v` is the raw value of a `VMKitNarrow`.
pub decode_raw : CompressedOps → ℕ → ℕ
decode_raw ops v = wrap (ops.base + wrap (v * 2 ^ ops.shift))

unfoldable pub decode : CompressedOps → ℕ → ℕ
unfolding decode_raw
decode ops v = if v == 0 then 0 else decode_raw ops v

-- The cast to `u32` drops the high digits.
pub encode : CompressedOps → ℕ → ℕ
encode ops v = if v == 0 then 0 else (wrapping_sub v ops.base / 2 ^ ops.shift) % 2 ^ 32
