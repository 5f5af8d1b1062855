-- ===== src/Align/Tests.antt =====
-- Alignments at 16 with an offset of 8.
use vmkit_core.Prelude.{◌^◌, ◌≡◌, arith}
use vmkit_core.Memory.{Mem}
use vmkit_core.Align.{VmAlignment, align_allocation_no_fill}
use vmkit_core.Align.Rounding.{IsLeastAligned, align_allocation_no_fill-IsLeast}

abbrev vm : VmAlignment
vm = record { alignment_value = 3735928559; max_alignment = 32; min_alignment = 8 }

abbrev memory : Mem
memory a = 0

align_allocation_no_fill-IsLeast_example :
    let r = align_allocation_no_fill vm memory 4096 (2 ^ 4) 8 in
    IsLeastAligned (2 ^ 4) 8 4096 r.0 × (r.1 ≡ memory)
align_allocation_no_fill-IsLeast_example =
    align_allocation_no_fill-IsLeast vm memory 4 4096 8 (omega arith) (omega arith) (omega arith)
