-- ===== src/Bdwgc/Registry.antt =====
-- `GC_new_kind` and `GC_new_proc` of bdwgc_shim.rs, and the mark procedure and the environment that
-- a descriptor names. A mark procedure is a number; `none` is a panic.
use Prim.Native.Nat.{bit_and}
use vmkit_core.Prelude.{
  ℕ, zero, suc, ◌+◌, ◌-◌, ◌*◌, ◌/◌, ◌^◌, ◌≤◌, ◌<◌, ◌≡◌, ◌≢◌, ◌⊎◌, refl, inl, inr, Bool, not,
  if◌then◌else◌, ◌==◌, ltb, List, [], ◌∷◌, Option, none, some, arith, sym, ◌∙◌, length, get_elem?,
  set, length-set, get_elem?-set_self, get_elem?-set_ne,
}
use native.Mathlib.Decide.{ℕ_discrete}
use vmkit_core.Prelude.Bits.{bit_and-low_mask}

abbrev pub gc_max_mark_procs : ℕ
gc_max_mark_procs = 2 ^ 6

abbrev pub maxobjkinds : ℕ
maxobjkinds = 24

-- `obj_kind`, less its free lists, which the code only stores.
pub record ObjKind : Type 0 where
  pub ok_descriptor : ℕ
  pub ok_relocate_descr : Bool
  pub ok_init : Bool

-- A table of slots of which the first `count` are in use, as `obj_kinds` and `n_kinds`, or
-- `mark_procs` and `n_procs`.
pub record Table {ℓ} (A : Type ℓ) : Type ℓ where
  pub slots : List (Option A)
  pub count : ℕ

module _ {ℓ} {A : Type ℓ} where
  abbrev pub vacant : ℕ → List (Option A)
  vacant zero = []
  vacant (suc n) = none ∷ vacant n

  unfoldable pub new_table : ℕ → Table A
  new_table size = record { slots = vacant size; count = 0 }

  -- The common body of `GC_new_kind` and `GC_new_proc`: the index of the new entry.
  unfoldable pub add_entry : ℕ → A → Table A → Option (ℕ × Table A)
  add_entry size x t =
      if ltb t.count size
      then some (t.count, record { slots = set t.slots t.count (some x); count = t.count + 1 })
      else none

unfoldable pub gc_new_kind : (descr adjust clear : ℕ) → Table ObjKind → Option (ℕ × Table ObjKind)
unfolding add_entry
gc_new_kind descr adjust clear t =
    add_entry maxobjkinds
      (record {
        ok_descriptor = descr;
        ok_relocate_descr = not (adjust == 0);
        ok_init = not (clear == 0);
      })
      t

unfoldable pub gc_new_proc : ℕ → Table ℕ → Option (ℕ × Table ℕ)
unfolding add_entry
gc_new_proc = add_entry gc_max_mark_procs

-- `BDWGC::proc` and `BDWGC::env`. GC_DS_TAG_BITS is 2, GC_LOG_MAX_MARK_PROCS is 6.
unfoldable pub proc : Table ℕ → ℕ → Option (Option ℕ)
proc t descr = get_elem? t.slots (bit_and (descr / 2 ^ 2) (gc_max_mark_procs - 1))

unfoldable pub env : ℕ → ℕ
env descr = descr / 2 ^ (2 + 6)

length-vacant {ℓ} : (A : Type ℓ) (n : ℕ) → length (vacant {A = A} n) ≡ n
length-vacant A zero = refl
length-vacant A (suc n) = omega (arith, length-vacant A n)

get_elem?-vacant {ℓ} : (A : Type ℓ) (n i : ℕ) → i < n → get_elem? (vacant {A = A} n) i ≡ some none
get_elem?-vacant A zero i h = absurd (omega arith)
get_elem?-vacant A (suc n) zero h = refl
get_elem?-vacant A (suc n) (suc i) h = get_elem?-vacant A n i (omega arith)

module _ {ℓ} {A : Type ℓ} where
  -- The first `count` of the `size` slots are in use, and the others are not.
  pub record IsFilledUp (size : ℕ) (t : Table A) : Type ℓ where
    pub sized : length t.slots ≡ size
    pub bounded : t.count ≤ size
    pub used : (i : ℕ) → i < t.count → (x : A) × (get_elem? t.slots i ≡ some (some x))
    pub unused : (i : ℕ) → t.count ≤ i → i < size → get_elem? t.slots i ≡ some none

  pub new_table-IsFilledUp : (size : ℕ) → IsFilledUp size (new_table {A = A} size)
  unfolding new_table
  new_table-IsFilledUp size = record {
    sized = length-vacant A size;
    bounded = omega arith;
    used = λ i h. absurd (omega arith);
    unused = λ i h g. get_elem?-vacant A size i g;
  }

  add_entry-slot :
      (size : ℕ) (x : A) (t : Table A)
      → IsFilledUp size t
      → t.count < size
      → (i : ℕ)
      → ((i ≡ t.count) × (get_elem? (set t.slots t.count (some x)) i ≡ some (some x)))
        ⊎ ((i ≢ t.count) × (get_elem? (set t.slots t.count (some x)) i ≡ get_elem? t.slots i))
  add_entry-slot size x t w h i = elim (ℕ_discrete i t.count) [
    | yes e ↦
        let s = get_elem?-set_self t.slots t.count (some x) (omega (arith, w.sized)) in
        inl (e, rw e s)
    | no ne ↦ inr (ne, get_elem?-set_ne t.slots t.count i (some x) (λ e. ne (sym e)))
  ]

  -- Registration in a table whose first slots are in use: while there is a free slot, the index is
  -- the number of entries before, the new entry is found there, each earlier index still finds its
  -- entry, and the table stays filled from the front; in a full table it panics.
  pub add_entry-cases :
      (size : ℕ) (x : A) (t : Table A)
      → IsFilledUp size t
      → ((t.count < size)
          × (u : Table A) × (add_entry size x t ≡ some (t.count, u))
          × IsFilledUp size u
          × (get_elem? u.slots t.count ≡ some (some x))
          × ((i : ℕ) → i < t.count → get_elem? u.slots i ≡ get_elem? t.slots i))
        ⊎ ((t.count ≡ size) × (add_entry size x t ≡ none))
  unfolding add_entry
  add_entry-cases size x t w = elim (ℕ_discrete t.count size) [
    | yes e ↦ inr (e, ground arith)
    | no ne ↦
        let lt : t.count < size = omega (arith, ne, w.bounded) in
        let u : Table A = record { slots = set t.slots t.count (some x); count = t.count + 1 } in
        inl (
          lt,
          u,
          ground arith,
          record {
            sized = omega (arith, w.sized, length-set t.slots t.count (some x));
            bounded = omega (arith, lt);
            used = λ i h. entry lt i h;
            unused = λ i h g. ground (arith, add_entry-slot size x t w lt i, w.unused i);
          },
          get_elem?-set_self t.slots t.count (some x) (omega (arith, w.sized)),
          λ i h. get_elem?-set_ne t.slots t.count i (some x) (λ e. ground arith),
        )
  ]
    where
      entry :
          t.count < size
          → (i : ℕ) → i < t.count + 1
          → (y : A) × (get_elem? (set t.slots t.count (some x)) i ≡ some (some y))
      entry lt i h = elim (add_entry-slot size x t w lt i) [
        | inl p ↦ (x, p.1)
        | inr p ↦ let r = w.used i (omega (arith, p.0)) in (r.0, p.1 ∙ r.1)
      ]

-- A descriptor that is made of an environment, the index of a mark procedure and the tag
-- GC_DS_PROC names this procedure and this environment.
pub proc-descriptor :
    (t : Table ℕ) (environment i : ℕ)
    → i < 2 ^ 6
    → let descr = (environment * 2 ^ 6 + i) * 2 ^ 2 + 2 in
      (proc t descr ≡ get_elem? t.slots i) × (env descr ≡ environment)
unfolding proc env
proc-descriptor t environment i h =
    let a : ((environment * 2 ^ 6 + i) * 2 ^ 2 + 2) / 2 ^ 2 ≡ environment * 2 ^ 6 + i =
      omega arith in
    let m : bit_and (environment * 2 ^ 6 + i) (gc_max_mark_procs - 1) ≡ i =
      omega (arith, bit_and-low_mask 6 (environment * 2 ^ 6 + i)) in
    (rw (a, m), omega arith)
