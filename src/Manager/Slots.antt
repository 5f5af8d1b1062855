-- ===== src/Manager/Slots.antt =====
-- The slots of `ThreadManager`: which threads they hold, and which of them are free.
use vmkit_core.Prelude.{
  ℕ, zero, suc, ◌+◌, ◌≤◌, ◌<◌, ◌≡◌, ◌≢◌, ◌⊎◌, inl, inr, refl, ap, List, [], ◌∷◌, ◌++◌, Option, none,
  some, arith, get_elem?, length, set, Option-cases, List-cases, subst, Bool-cases, ◌==◌,
  length-append, length-set, get_elem?-set_self, get_elem?-set_ne, get_elem?-append_length,
}
use native.Mathlib.Decide.{ℕ_discrete}
use vmkit_core.Thread.{Thread}
use vmkit_core.Manager.{System, put, next_index, register, find_terminated, remove_terminated}

-- A registered thread knows its slot; a free index belongs to an empty slot and is free once.
pub record IsWellFormed (sys : System) : Type 0 where
  pub slots :
      (i t : ℕ)
      → get_elem? sys.manager.threads i ≡ some (some t)
      → (sys.store t).index_in_manager ≡ i
  pub empty :
      (k i : ℕ)
      → get_elem? sys.manager.free_thread_indices k ≡ some i
      → get_elem? sys.manager.threads i ≡ some none
  pub once :
      (k l i : ℕ)
      → get_elem? sys.manager.free_thread_indices k ≡ some i
      → get_elem? sys.manager.free_thread_indices l ≡ some i
      → k ≡ l

-- The thread is in no slot.
abbrev pub IsNew : System → ℕ → Type 0
IsNew sys t = (i : ℕ) → get_elem? sys.manager.threads i ≢ some (some t)

-- New fields of a thread that keep its slot do not disturb the slots.
pub put-IsWellFormed :
    (sys : System) (t : ℕ) (u : Thread)
    → u.index_in_manager ≡ (sys.store t).index_in_manager
    → IsWellFormed sys
    → IsWellFormed (record sys { store = put sys.store t u })
put-IsWellFormed sys t u same w = record {
  slots = λ i x h. elim (Bool-cases (x == t)) [
    | inr b ↦ ground (arith, b, w.slots i x h)
    | inl b ↦ let q : x ≡ t = ground (arith, b) in ground (arith, b, same, q, w.slots i x h)
  ];
  empty = w.empty;
  once = w.once;
}

module _ {ℓ} {A : Type ℓ} where
  get_elem?-lt : (xs : List A) (i : ℕ) (x : A) → get_elem? xs i ≡ some x → i < length xs
  get_elem?-lt [] i x e = ground arith
  get_elem?-lt (y ∷ xs) zero x e = omega arith
  get_elem?-lt (y ∷ xs) (suc i) x e = omega (arith, get_elem?-lt xs i x e)

  -- A slot after a write, and after an append.
  get_elem?-set-cases :
      (xs : List A) (i j : ℕ) (v : A)
      → i < length xs
      → ((i ≡ j) × (get_elem? (set xs i v) j ≡ some v))
        ⊎ ((i ≢ j) × (get_elem? (set xs i v) j ≡ get_elem? xs j))
  get_elem?-set-cases xs i j v h = elim (ℕ_discrete i j) [
    | yes e ↦
        inl (e, subst (λ k. get_elem? (set xs i v) k ≡ some v) e (get_elem?-set_self xs i v h))
    | no ne ↦ inr (ne, get_elem?-set_ne xs i j v ne)
  ]

  get_elem?-append-cases :
      (xs : List A) (v : A) (j : ℕ)
      → ((j ≡ length xs) × (get_elem? (xs ++ v ∷ []) j ≡ some v))
        ⊎ ((j ≢ length xs) × (get_elem? (xs ++ v ∷ []) j ≡ get_elem? xs j))
  get_elem?-append-cases [] v zero = inl (refl, refl)
  get_elem?-append-cases [] v (suc j) = inr (ground arith, refl)
  get_elem?-append-cases (x ∷ xs) v zero = inr (ground arith, refl)
  get_elem?-append-cases (x ∷ xs) v (suc j) = ground (arith, get_elem?-append-cases xs v j)

-- What `register` does to the slots, when none is free and when one is.
register-push :
    (sys : System) (t : ℕ)
    → sys.manager.free_thread_indices ≡ []
    → register sys t ≡ record {
      manager = record sys.manager {
        threads = sys.manager.threads ++ some t ∷ [];
        free_thread_indices = [];
      };
      store =
          put sys.store t (record (sys.store t) { index_in_manager = length sys.manager.threads });
    }
unfolding register next_index
register-push sys t e = ground (arith, e)

register-reuse :
    (sys : System) (t i : ℕ) (is : List ℕ)
    → sys.manager.free_thread_indices ≡ i ∷ is
    → i < length sys.manager.threads
    → register sys t ≡ record {
      manager = record sys.manager {
        threads = set sys.manager.threads i (some t);
        free_thread_indices = is;
      };
      store = put sys.store t (record (sys.store t) { index_in_manager = i });
    }
unfolding register next_index
register-reuse sys t i is e h = ground (arith, e)

pub register-IsWellFormed :
    (sys : System) (t : ℕ) → IsWellFormed sys → IsNew sys t → IsWellFormed (register sys t)
register-IsWellFormed sys t w n = elim (List-cases sys.manager.free_thread_indices) [
  | inl e ↦ rw (register-push sys t e) (record {
    slots = λ i u h.
        ground (arith, w.slots i u, n i, get_elem?-append-cases sys.manager.threads (some t) i);
    empty = λ k i h. ground arith;
    once = λ k l i h g. ground arith;
  })
  | inr (j, js, e) ↦
      let f = w.empty 0 j (ground (arith, e)) in
      let lt = get_elem?-lt sys.manager.threads j none f in
      rw (register-reuse sys t j js e lt) (record {
        slots = λ i u h.
            ground
              (arith, w.slots i u, n i, get_elem?-set-cases sys.manager.threads j i (some t) lt);
        empty = λ k i h. ground (
          arith,
          e,
          w.empty (suc k) i,
          w.once 0 (suc k) j,
          get_elem?-set-cases sys.manager.threads j i (some t) lt,
        );
        once = λ k l i h g. ground (arith, e, w.once (suc k) (suc l) i);
      })
]

pub register-length :
    (sys : System) (t : ℕ) → length sys.manager.threads ≤ length (register sys t).manager.threads
unfolding register
register-length sys t = ground (
  arith,
  length-append sys.manager.threads (some t ∷ []),
  length-set sys.manager.threads (next_index sys.manager).0 (some t),
)

pub register-at :
    (sys : System) (t : ℕ)
    → IsWellFormed sys
    → (i : ℕ) × (get_elem? (register sys t).manager.threads i ≡ some (some t))
register-at sys t w = elim (List-cases sys.manager.free_thread_indices) [
  | inl e ↦ (
    length sys.manager.threads,
    rw (register-push sys t e) (get_elem?-append_length sys.manager.threads (some t)),
  )
  | inr (j, js, e) ↦
      let lt = get_elem?-lt sys.manager.threads j none (w.empty 0 j (ground (arith, e))) in
      (
        j,
        rw (register-reuse sys t j js e lt) (get_elem?-set_self sys.manager.threads j (some t) lt),
      )
]

-- The thread that the search finds stands in the slot where it was found.
pub find_terminated-slot :
    (sys : System) (n i j t : ℕ)
    → find_terminated sys n i ≡ some (some (j, t))
    → get_elem? sys.manager.threads j ≡ some (some t)
unfolding find_terminated
find_terminated-slot sys zero i j t e = ground arith
find_terminated-slot sys (suc n) i j t e = elim (Option-cases (get_elem? sys.manager.threads i)) [
  | inl o ↦ ground (arith, o)
  | inr (none, o) ↦ ground (arith, o)
  | inr (some u, o) ↦ ground (arith, o, find_terminated-slot sys n (i + 1) j t)
]

-- What a removal, and with it a whole pass, keeps: well-formedness, the number of slots, the
-- store; and it registers nothing.
pub record Keeps (sys sys' : System) : Type 0 where
  pub formed : IsWellFormed sys'
  pub count : length sys'.manager.threads ≡ length sys.manager.threads
  pub same_store : sys'.store ≡ sys.store
  pub older :
      (i t : ℕ)
      → get_elem? sys'.manager.threads i ≡ some (some t)
      → get_elem? sys.manager.threads i ≡ some (some t)

-- A slot that is emptied and whose index becomes free.
module _ (threads : List (Option ℕ)) (free : List ℕ) (j t : ℕ)
    (filled : get_elem? threads j ≡ some (some t))
    (empty : (k i : ℕ) → get_elem? free k ≡ some i → get_elem? threads i ≡ some none) where
  freed-empty :
      (k i : ℕ) → get_elem? (j ∷ free) k ≡ some i → get_elem? (set threads j none) i ≡ some none
  freed-empty zero i h =
      let lt = get_elem?-lt threads j (some t) filled in
      ground (arith, get_elem?-set-cases threads j i none lt)
  freed-empty (suc k) i h =
      let lt = get_elem?-lt threads j (some t) filled in
      ground (arith, empty k i h, get_elem?-set-cases threads j i none lt)

  freed-once :
      ((k l i : ℕ) → get_elem? free k ≡ some i → get_elem? free l ≡ some i → k ≡ l)
      → (k l i : ℕ) → get_elem? (j ∷ free) k ≡ some i
      → get_elem? (j ∷ free) l ≡ some i
      → k ≡ l
  freed-once once zero zero i h g = refl
  freed-once once zero (suc l) i h g = ground (arith, empty l i g)
  freed-once once (suc k) zero i h g = ground (arith, empty k i h)
  freed-once once (suc k) (suc l) i h g = ap suc (once k l i h g)

pub remove_terminated-Keeps :
    (sys sys' : System) (i j t : ℕ)
    → IsWellFormed sys
    → get_elem? sys.manager.threads j ≡ some (some t)
    → remove_terminated sys i t ≡ some sys'
    → Keeps sys sys'
unfolding remove_terminated
remove_terminated-Keeps sys sys' i j t w s e =
    let lt = get_elem?-lt sys.manager.threads j (some t) s in
    let q = w.slots j t s in
    record {
      formed = record {
        slots = λ k u h.
            ground (arith, e, q, w.slots k u, get_elem?-set-cases sys.manager.threads j k none lt);
        empty = λ k l h. ground (
          arith,
          e,
          q,
          freed-empty sys.manager.threads sys.manager.free_thread_indices j t s w.empty k l,
        );
        once = λ k l n h g.
            freed-once sys.manager.threads sys.manager.free_thread_indices j t s w.empty w.once k l
              n (ground (arith, e, q)) (ground (arith, e, q));
      };
      count = ground (arith, e, length-set sys.manager.threads (sys.store t).index_in_manager none);
      same_store = ground (arith, e);
      older = λ k u h. ground (arith, e, q, h, get_elem?-set-cases sys.manager.threads j k none lt);
    }
