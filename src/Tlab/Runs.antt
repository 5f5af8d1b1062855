-- ===== src/Tlab/Runs.antt =====
-- A series of allocations from one buffer.
use vmkit_core.Prelude.{ℕ, ◌+◌, ◌^◌, ◌≤◌, ◌<◌, ◌≡◌, ◌⊎◌, arith, List, [], ◌∷◌}
use vmkit_core.Prelude.Words.{word_mod}
use vmkit_core.Memory.{Mem}
use vmkit_core.Align.{VmAlignment}
use vmkit_core.Tlab.{Tlab, Request, allocate, served}
use vmkit_core.Tlab.Fits.{AlignsUp, allocate-cases}

-- The spans `(address, size)` follow one another between `lo` and `hi` and do not overlap.
abbrev pub InOrder : ℕ → ℕ → List (ℕ × ℕ) → Type 0
InOrder lo hi [] = Unit {0}
InOrder lo hi ((a, size) ∷ spans) = (lo ≤ a) × (a + size ≤ hi) × InOrder (a + size) hi spans

-- The numbers of a request do not wrap at the end of the address space, for a limit `hi`.
abbrev pub Servable : (ℕ → ℕ → ℕ) → ℕ → List Request → Type 0
Servable raw_align_up hi [] = Unit {0}
Servable raw_align_up hi (q ∷ qs) =
    (q.log_alignment < 64)
    × (q.offset < word_mod)
    × (q.size + 2 ^ q.log_alignment ≤ word_mod)
    × (hi + 2 ^ q.log_alignment + raw_align_up q.size (2 ^ q.log_alignment) ≤ word_mod)
    × Servable raw_align_up hi qs

InOrder-mono :
    (lo' lo hi : ℕ) (spans : List (ℕ × ℕ)) → lo' ≤ lo → InOrder lo hi spans → InOrder lo' hi spans
InOrder-mono lo' lo hi [] h o = tt
InOrder-mono lo' lo hi ((a, size) ∷ spans) h o = (omega arith, o.1, o.2)

module _ (raw_align_up : ℕ → ℕ → ℕ) (up : AlignsUp raw_align_up) (vm : VmAlignment) (m : Mem) where
  -- One allocation keeps `cursor ≤ limit` and the limit, and leaves room for what it returns.
  allocate_step :
      (t : Tlab) (q : Request)
      → t.cursor ≤ t.limit
      → Servable raw_align_up t.limit (q ∷ [])
      → let r = allocate raw_align_up vm m t q.size (2 ^ q.log_alignment) q.offset in
        (r.1.limit ≡ t.limit)
        × (t.cursor ≤ r.1.cursor)
        × (r.1.cursor ≤ t.limit)
        × ((r.0 ≡ 0) ⊎ ((t.cursor ≤ r.0) × (r.0 + q.size ≤ r.1.cursor)))
  allocate_step t q h s = ground (
    arith,
    s,
    up.from q.size q.log_alignment,
    allocate-cases raw_align_up vm m t q.size q.log_alignment q.offset,
  )

  -- If the buffer starts with its cursor within its limit, and no request wraps, then the objects
  -- that a series of requests is given lie between the cursor and the limit and never overlap.
  pub served-InOrder :
      (t : Tlab) (qs : List Request)
      → t.cursor ≤ t.limit
      → Servable raw_align_up t.limit qs
      → InOrder t.cursor t.limit (served raw_align_up vm m t qs)
  unfolding served
  served-InOrder t [] h s = tt
  served-InOrder t (q ∷ qs) h s =
      let r = allocate raw_align_up vm m t q.size (2 ^ q.log_alignment) q.offset in
      let f = allocate_step t q h (s.0, s.1, s.2, s.3, tt) in
      let fits : Servable raw_align_up r.1.limit qs = rw f.0 s.4 in
      let rest : InOrder r.1.cursor t.limit (served raw_align_up vm m r.1 qs) =
        rw f.0 at (served-InOrder r.1 qs (omega (arith, f)) fits) in
      ground (
        arith,
        f,
        rest,
        InOrder-mono t.cursor r.1.cursor t.limit (served raw_align_up vm m r.1 qs),
        InOrder-mono (r.0 + q.size) r.1.cursor t.limit (served raw_align_up vm m r.1 qs),
      )
