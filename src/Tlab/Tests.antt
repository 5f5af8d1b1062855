-- ===== src/Tlab/Tests.antt =====
-- A buffer of 256 bytes.
use vmkit_core.Prelude.{List, [], ◌∷◌, arith}
use vmkit_core.Memory.{Mem}
use vmkit_core.Align.{VmAlignment}
use vmkit_core.Tlab.{Tlab, Request, served}
use vmkit_core.Tlab.Runs.{InOrder, served-InOrder}
use vmkit_core.Tlab.Multiples.{multiple_from, multiple_from-AlignsUp}

abbrev vm : VmAlignment
vm = record { alignment_value = 0; max_alignment = 32; min_alignment = 8 }

abbrev buffer : Tlab
buffer = record { cursor = 4096; limit = 4352 }

abbrev memory : Mem
memory a = 0

abbrev requests : List Request
requests =
    record { size = 24; log_alignment = 4; offset = 8 }
    ∷ record { size = 40; log_alignment = 3; offset = 8 }
    ∷ record { size = 512; log_alignment = 3; offset = 8 }
    ∷ []

served-InOrder_example : InOrder 4096 4352 (served multiple_from vm memory buffer requests)
served-InOrder_example =
    served-InOrder multiple_from multiple_from-AlignsUp vm memory buffer requests (omega arith) (
      omega arith,
      omega arith,
      omega arith,
      omega arith,
      (
        omega arith,
        omega arith,
        omega arith,
        omega arith,
        (omega arith, omega arith, omega arith, omega arith, tt),
      ),
    )
