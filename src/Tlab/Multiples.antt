-- ===== src/Tlab/Multiples.antt =====
-- A function that rounds up as `raw_align_up` of mmtk is documented to do.
use native.Mathlib.Nat.{one-le-pow}
use vmkit_core.Prelude.{ℕ, ◌+◌, ◌-◌, ◌*◌, ◌/◌, ◌^◌, ◌≡◌, arith}
use vmkit_core.Prelude.Bits.{mod_of_parts}
use vmkit_core.Tlab.Fits.{AlignsUp}

abbrev pub multiple_from : ℕ → ℕ → ℕ
multiple_from x align = (x + (align - 1)) / align * align

pub multiple_from-AlignsUp : AlignsUp multiple_from
multiple_from-AlignsUp = record {
  from = λ x k hk h. let p = one-le-pow k 2 (omega arith) in grind (arith, p);
  near = λ x k hk h. let p = one-le-pow k 2 (omega arith) in grind (arith, p);
  multiple = λ x k hk h.
      let q = (x + (2 ^ k - 1)) / 2 ^ k in
      let p = mod_of_parts (2 ^ k) q 0 (one-le-pow k 2 (omega arith)) in
      let e : q * 2 ^ k + 0 ≡ q * 2 ^ k = omega arith in rw e at p;
}
