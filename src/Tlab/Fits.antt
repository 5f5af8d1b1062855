-- ===== src/Tlab/Fits.antt =====
-- One allocation from a buffer.
use vmkit_core.Prelude.{ℕ, ◌+◌, ◌%◌, ◌^◌, ◌≤◌, ◌<◌, ◌≡◌, ◌⊎◌, arith}
use vmkit_core.Prelude.Words.{word_mod}
use vmkit_core.Memory.{Mem}
use vmkit_core.Align.{VmAlignment, align_allocation_no_fill}
use vmkit_core.Align.Rounding.{IsLeastAligned, align_allocation_no_fill-IsLeast}
use vmkit_core.Tlab.{Tlab, allocate}

-- `mmtk::util::conversions::raw_align_up(val, align)`: `val` rounded up to a multiple of `align`,
-- a power of two, where nothing overflows.
pub record AlignsUp (raw_align_up : ℕ → ℕ → ℕ) : Type 0 where
  pub from : (x k : ℕ) → k < 64 → x + 2 ^ k ≤ word_mod → x ≤ raw_align_up x (2 ^ k)
  pub near : (x k : ℕ) → k < 64 → x + 2 ^ k ≤ word_mod → raw_align_up x (2 ^ k) < x + 2 ^ k
  pub multiple : (x k : ℕ) → k < 64 → x + 2 ^ k ≤ word_mod → raw_align_up x (2 ^ k) % 2 ^ k ≡ 0

-- For an alignment `2^k` and numbers that do not wrap: the allocation looks at the least address
-- from the cursor on that is aligned once `offset` is added, and at the size rounded up. If they
-- end within the limit it returns the address and moves the cursor to the end; otherwise it
-- returns 0 and changes nothing.
pub allocate-cases :
    (raw_align_up : ℕ → ℕ → ℕ) (vm : VmAlignment) (m : Mem) (t : Tlab) (size k offset : ℕ)
    → k < 64
    → offset < word_mod
    → t.cursor + 2 ^ k + raw_align_up size (2 ^ k) ≤ word_mod
    → let r = allocate raw_align_up vm m t size (2 ^ k) offset in
      (x : ℕ) × IsLeastAligned (2 ^ k) offset t.cursor x
      × (((x + raw_align_up size (2 ^ k) ≤ t.limit)
            × (r ≡ (x, record { cursor = x + raw_align_up size (2 ^ k); limit = t.limit })))
          ⊎ ((t.limit < x + raw_align_up size (2 ^ k)) × (r ≡ (0, t))))
unfolding allocate
allocate-cases raw_align_up vm m t size k offset hk ho h =
    let l = align_allocation_no_fill-IsLeast vm m k t.cursor offset hk ho (omega arith) in
    ((align_allocation_no_fill vm m t.cursor (2 ^ k) offset).0, l.0, ground (arith, l.0.near))
