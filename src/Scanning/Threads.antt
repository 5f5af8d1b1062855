-- ===== src/Scanning/Threads.antt =====
-- The roots that the registers and the stack of a thread hold.
use vmkit_core.Prelude.{ℕ, ◌+◌, ◌≡◌, ◌≢◌, inl, inr, refl, true, List, [], ◌∷◌, arith, Option}
use vmkit_core.Memory.{Mem}
use vmkit_core.Roots.{HeapBounds, ConservativeRoots, Range, contains, new}
use vmkit_core.Roots.Spans.{InSome, AllMapped, AllMapped-cons, add_spans-Scanned}
use vmkit_core.Scanning.{scan_roots_in_mutator_thread}

-- The spans of the registers and of the stack.
abbrev pub spans_of : (registers register_bytes origin stack_pointer : ℕ) → List Range
spans_of registers register_bytes origin stack_pointer =
    record { low = registers; high = registers + register_bytes }
    ∷ record { low = origin; high = stack_pointer }
    ∷ []

module _ (heap : HeapBounds) (m : Mem) where
  -- For a copy of the registers, a stack origin and a stack pointer whose addresses are not null:
  -- the context of the thread gets as roots exactly the objects, found within 128 bytes, that a word
  -- of the registers, or of the stack between its origin and the stack pointer, refers to; its
  -- result is that of the scan.
  pub scan_roots_in_mutator_thread_lem :
      (registers register_bytes origin stack_pointer : ℕ)
      (context : ConservativeRoots → Option ConservativeRoots)
      → registers ≢ 0
      → origin ≢ 0
      → stack_pointer ≢ 0
      → (r : ConservativeRoots) × (scan_roots_in_mutator_thread heap m registers register_bytes
            origin stack_pointer context
          ≡ context r)
        × ((x : ℕ)
            → ((contains r.roots x ≡ true)
                → InSome heap m 128 (spans_of registers register_bytes origin stack_pointer) x)
              × (InSome heap m 128 (spans_of registers register_bytes origin stack_pointer) x
                  → contains r.roots x ≡ true))
  unfolding scan_roots_in_mutator_thread new
  scan_roots_in_mutator_thread_lem registers register_bytes origin stack_pointer context h1 h2 h3 =
      let a : Range = record { low = registers; high = registers + register_bytes } in
      let b : Range = record { low = origin; high = stack_pointer } in
      let mapped : AllMapped heap m (a ∷ b ∷ []) =
        AllMapped-cons heap m a (b ∷ []) h1 (λ k. ground arith)
          (AllMapped-cons heap m b [] h2 h3 (λ t k. ground (arith, k))) in
      let (r, e, (l, c)) = add_spans-Scanned heap m (a ∷ b ∷ []) (new heap 128) mapped in
      (
        r,
        rw e refl,
        λ x.
            (λ k. elim ((c x).0 k) [ inl d ↦ ground (arith, d) | inr d ↦ d ], λ k. (c x).1 (inr k)),
      )
