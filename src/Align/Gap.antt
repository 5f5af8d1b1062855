-- ===== src/Align/Gap.antt =====
-- What `fill_alignment_gap` of vmkit/src/mm/align.rs leaves in memory.
use native.Mathlib.Decide.{ℕ_discrete}
use vmkit_core.Prelude.{
  ℕ, zero, suc, ◌+◌, ◌-◌, ◌*◌, ◌^◌, ◌≤◌, ◌<◌, ◌≡◌, ◌∙◌, ◌⊎◌, inl, refl, true, false, arith, ltb,
  ◌==◌, not, if◌then◌else◌,
}
use vmkit_core.Memory.{
  Mem, load_bytes, store_bytes, load_bytes_ext, store_bytes-outside, load_bytes-store_bytes,
}
use vmkit_core.Align.{VmAlignment, fill_loop, fill_alignment_gap}

-- `m'` holds `v` in each of the `n` slots of four bytes from `start` on, and is `m` elsewhere.
pub record IsFilled (v : ℕ) (m m' : Mem) (start n : ℕ) : Type 0 where
  pub slots : (i : ℕ) → i < n → load_bytes 4 m' (start + 4 * i) ≡ v
  pub outside : (x : ℕ) → (x < start) ⊎ (start + 4 * n ≤ x) → m' x ≡ m x

IsFilled-nil : (v : ℕ) (m : Mem) (start : ℕ) → IsFilled v m m start 0
IsFilled-nil v m start = record { slots = λ i h. absurd (omega arith); outside = λ x h. refl }

stored_slot :
    (v : ℕ) (m m' : Mem) (start n : ℕ)
    → v < 2 ^ 32
    → IsFilled v (store_bytes 4 m start v) m' (start + 4) n
    → (i : ℕ) → i < suc n
    → load_bytes 4 m' (start + 4 * i) ≡ v
stored_slot v m m' start n hv f zero h =
    let e : start + 4 * 0 ≡ start = omega arith in
    rw e (
      load_bytes_ext 4 m' (store_bytes 4 m start v) start start
        (λ j lt. f.outside (start + j) (inl (omega arith)))
      ∙ load_bytes-store_bytes 4 m start v hv)
stored_slot v m m' start n hv f (suc i) h = ground (arith, f.slots i (omega arith))

-- One store, then a fill of the slots behind it.
IsFilled-store :
    (v : ℕ) (m m' : Mem) (start n : ℕ)
    → v < 2 ^ 32
    → IsFilled v (store_bytes 4 m start v) m' (start + 4) n
    → IsFilled v m m' start (suc n)
IsFilled-store v m m' start n hv f = record {
  slots = stored_slot v m m' start n hv f;
  outside = λ x h. f.outside x (omega arith) ∙ store_bytes-outside 4 m start v x (omega arith);
}

fill_loop-IsFilled :
    (fuel n : ℕ) (vm : VmAlignment) (m : Mem) (start end : ℕ)
    → n ≤ fuel
    → end ≡ start + 4 * n
    → vm.alignment_value < 2 ^ 32
    → IsFilled vm.alignment_value m (fill_loop fuel vm m start end) start n
unfolding fill_loop
fill_loop-IsFilled zero zero vm m start end hf he hv = IsFilled-nil vm.alignment_value m start
fill_loop-IsFilled zero (suc n) vm m start end hf he hv = absurd (omega arith)
fill_loop-IsFilled (suc fuel) zero vm m start end hf he hv =
    let e : ltb start end ≡ false = ground arith in
    rw (e, fill_loop) (IsFilled-nil vm.alignment_value m start)
fill_loop-IsFilled (suc fuel) (suc n) vm m start end hf he hv =
    let e : ltb start end ≡ true = ground arith in
    let rest =
      fill_loop-IsFilled fuel n vm (store_bytes 4 m start vm.alignment_value) (start + 4) end
        (omega arith) (omega arith) hv in
    rw e (IsFilled-store vm.alignment_value m _ start n hv rest)

-- When the gap is a whole number of `u32` slots, at most one if the VM's alignments differ by
-- four, each slot receives the VM's alignment value and no other byte changes.
pub fill_alignment_gap-IsFilled :
    (vm : VmAlignment) (m : Mem) (start n : ℕ)
    → vm.alignment_value < 2 ^ 32
    → (vm.max_alignment - vm.min_alignment ≡ 4 → n ≤ 1)
    → IsFilled vm.alignment_value m (fill_alignment_gap vm m start (start + 4 * n)) start n
unfolding fill_alignment_gap
fill_alignment_gap-IsFilled vm m start n hv single =
    elim (ℕ_discrete (vm.max_alignment - vm.min_alignment) 4) [
      | yes e ↦
          let t : ((vm.max_alignment - vm.min_alignment) == 4) ≡ true = ground arith in
          rw t (single_slot n (single e))
      | no ne ↦
          let t : ((vm.max_alignment - vm.min_alignment) == 4) ≡ false = ground arith in
          rw t (
            fill_loop-IsFilled (start + 4 * n - start) n vm m start (start + 4 * n) (omega arith)
              refl hv)
    ]
  where
    single_slot :
        (k : ℕ)
        → k ≤ 1
        → IsFilled vm.alignment_value m
            (if not ((start + 4 * k - start) == 0)
              then store_bytes 4 m start vm.alignment_value
              else m)
            start
            k
    single_slot zero h =
        let t : ((start + 4 * 0 - start) == 0) ≡ true = ground arith in
        rw t (IsFilled-nil vm.alignment_value m start)
    single_slot (suc zero) h =
        let t : ((start + 4 * 1 - start) == 0) ≡ false = ground arith in
        rw t (
          IsFilled-store vm.alignment_value m _ start 0 hv (
            IsFilled-nil vm.alignment_value (store_bytes 4 m start vm.alignment_value) (start + 4)))
    single_slot (suc (suc k)) h = absurd (omega arith)
