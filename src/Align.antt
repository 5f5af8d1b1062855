-- ===== src/Align.antt =====
-- vmkit/src/mm/align.rs: alignment of signed offsets and of allocation regions.
-- An `isize` is its two's complement pattern below 2^64, and an `Address` of mmtk is the `usize`
-- that it wraps. The constants of the trait `VirtualMachine` (vmkit/src/lib.rs) are a record.
pub mod Rounding
pub mod Gap
mod Tests
use Prim.Native.Nat.{bit_and}
use vmkit_core.Prelude.{
  ℕ, zero, suc, ◌+◌, ◌-◌, Bool, true, false, not, ◌&&◌, ltb, ◌==◌, if◌then◌else◌,
}
use vmkit_core.Prelude.Words.{word_mod, wrap, wrapping_neg, wrapping_sub}
use vmkit_core.Memory.{Mem, store_bytes}

-- The alignment constants of `VirtualMachine`.
pub record VmAlignment : Type 0 where
  pub alignment_value : ℕ
  pub max_alignment : ℕ
  pub min_alignment : ℕ

pub round_down : ℕ → ℕ → ℕ
round_down x align = bit_and x (wrapping_neg align)

pub round_up : ℕ → ℕ → ℕ → ℕ
unfolding round_down
round_up x align offset =
    wrapping_sub (round_down (wrap (x + align + (word_mod - 1) + offset)) align) offset

pub is_aligned : ℕ → ℕ → ℕ → Bool
is_aligned x alignment offset = bit_and x (wrapping_sub alignment 1) == offset

-- The `while start < end` loop; each round stores one `u32`.
pub fill_loop : ℕ → VmAlignment → Mem → ℕ → ℕ → Mem
fill_loop zero vm m start end = m
fill_loop (suc fuel) vm m start end =
    let rest = fill_loop fuel vm (store_bytes 4 m start vm.alignment_value) (start + 4) end in
    if ltb start end then rest else m

pub fill_alignment_gap : VmAlignment → Mem → ℕ → ℕ → Mem
unfolding fill_loop
fill_alignment_gap vm m immut_start end =
    if (vm.max_alignment - vm.min_alignment) == 4
    then (if not ((end - immut_start) == 0)
        then store_bytes 4 m immut_start vm.alignment_value
        else m)
    else fill_loop (end - immut_start) vm m immut_start end

-- `delta` of `align_allocation_inner`.
pub alignment_delta : ℕ → ℕ → ℕ → ℕ
alignment_delta region alignment offset =
    bit_and (wrapping_sub (wrapping_neg offset) region) (wrapping_sub alignment 1)

-- The aligned address, and memory with the gap filled when that was asked for.
pub align_allocation_inner : VmAlignment → Mem → ℕ → ℕ → ℕ → Bool → ℕ × Mem
unfolding alignment_delta fill_alignment_gap
align_allocation_inner vm m region alignment offset fill =
    let x = wrap (region + alignment_delta region alignment offset) in
    (x, if fill && not (vm.alignment_value == 0) then fill_alignment_gap vm m region x else m)

pub align_allocation_no_fill : VmAlignment → Mem → ℕ → ℕ → ℕ → ℕ × Mem
unfolding align_allocation_inner
align_allocation_no_fill vm m region alignment offset =
    align_allocation_inner vm m region alignment offset false

unfoldable pub align_allocation : VmAlignment → Mem → ℕ → ℕ → ℕ → ℕ × Mem
unfolding align_allocation_inner
align_allocation vm m region alignment offset =
    align_allocation_inner vm m region alignment offset true
