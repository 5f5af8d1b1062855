-- ===== src/Tlab.antt =====
-- vmkit/src/mm/tlab.rs: the thread-local allocation buffer. `raw_align_up` of mmtk is a parameter.
pub mod Fits
pub mod Runs
pub mod Multiples
mod Tests
use vmkit_core.Prelude.{ℕ, ◌+◌, ◌^◌, ltb, ◌==◌, if◌then◌else◌, List, [], ◌∷◌}
use vmkit_core.Prelude.Words.{wrap}
use vmkit_core.Memory.{Mem}
use vmkit_core.Align.{VmAlignment, align_allocation_no_fill}

pub record Tlab : Type 0 where
  pub cursor : ℕ
  pub limit : ℕ

abbrev pub empty : Tlab
empty = record { cursor = 0; limit = 0 }

-- The address (0 on failure) and the buffer afterwards.
pub allocate : (ℕ → ℕ → ℕ) → VmAlignment → Mem → Tlab → (size alignment offset : ℕ) → ℕ × Tlab
allocate raw_align_up vm m t size alignment offset =
    let size' = raw_align_up size alignment in
    let result = (align_allocation_no_fill vm m t.cursor alignment offset).0 in
    if ltb t.limit (wrap (result + size'))
    then (0, t)
    else (result, record t { cursor = wrap (result + size') })

unfoldable pub rebind : Tlab → ℕ → ℕ → Tlab
rebind t cursor limit = record { cursor = cursor; limit = limit }

unfoldable pub reset : Tlab → Tlab
reset t = empty

-- The pair that was held, and the buffer afterwards.
unfoldable pub take : Tlab → (ℕ × ℕ) × Tlab
unfolding reset
take t = ((t.cursor, t.limit), reset t)

-- A request for `size` bytes aligned at `2 ^ log_alignment`.
pub record Request : Type 0 where
  pub size : ℕ
  pub log_alignment : ℕ
  pub offset : ℕ

-- The fast path of `MemoryManager::allocate` over a series of requests: the address and the size
-- of each request that was served (`!object_start.is_zero()`).
pub served : (ℕ → ℕ → ℕ) → VmAlignment → Mem → Tlab → List Request → List (ℕ × ℕ)
served raw_align_up vm m t [] = []
served raw_align_up vm m t (q ∷ qs) =
    let r = allocate raw_align_up vm m t q.size (2 ^ q.log_alignment) q.offset in
    let rest = served raw_align_up vm m r.1 qs in if r.0 == 0 then rest else (r.0, q.size) ∷ rest
