-- ===== src/Collection/Flushed.antt =====
-- The buffers of the mutators when the world has stopped.
use vmkit_core.Prelude.{
  ℕ, ◌≡◌, ◌≢◌, ◌∙◌, refl, ap, inl, inr, Bool, false, ◌||◌, if◌then◌else◌, ◌==◌, List, [], ◌∷◌, some,
  arith, Bool-cases,
}
use vmkit_core.Heap.{Mmtk, Mutator, no_bump_pointer}
use vmkit_core.Heap.Paths.{IsOpenOrEmpty, emptied, flush_tlab-emptied}
use vmkit_core.Collection.{put_mutator, flush_each}

abbrev pub member : List ℕ → ℕ → Bool
member [] t = false
member (u ∷ us) t = (t == u) || member us t

emptied-IsOpenOrEmpty : (t : Mutator) → IsOpenOrEmpty (emptied t)
emptied-IsOpenOrEmpty t e = elim (Bool-cases (t.tlab.cursor == 0)) [
  | inl b ↦ ground (arith, b)
  | inr b ↦ ground (arith, b)
]

emptied-again : (t : Mutator) → emptied (emptied t) ≡ emptied t
emptied-again t = elim (Bool-cases (t.tlab.cursor == 0)) [
  | inl b ↦ ground (arith, b)
  | inr b ↦ ground (arith, b)
]

put_mutator-emptied :
    (ms : ℕ → Mutator) (u t : ℕ) (later : Bool)
    → (if later
        then emptied (put_mutator ms u (emptied (ms u)) t)
        else put_mutator ms u (emptied (ms u)) t)
      ≡ (if (t == u) || later then emptied (ms t) else ms t)
put_mutator-emptied ms u t later = elim (Bool-cases (t == u)) [
  | inr b ↦ elim (Bool-cases later) [ inl c ↦ rw (b, c) refl | inr c ↦ rw (b, c) refl ]
  | inl b ↦
      let q : u ≡ t = ground (arith, b) in
      let at : emptied (ms u) ≡ emptied (ms t) = ap (λ (k : ℕ). emptied (ms k)) q in
      elim (Bool-cases later) [
        | inl c ↦ rw (b, c) (ap emptied at ∙ emptied-again (ms t))
        | inr c ↦ rw (b, c) at
      ]
]

-- Every mutator of the list gives its buffer to its allocator, and the others keep theirs.
pub flush_each-emptied :
    (mmtk : Mmtk) (ts : List ℕ) (ms : ℕ → Mutator)
    → mmtk.selector ≢ no_bump_pointer
    → ((t : ℕ) → IsOpenOrEmpty (ms t))
    → (ms' : ℕ → Mutator) × (flush_each mmtk ts ms ≡ some ms')
      × ((t : ℕ) → ms' t ≡ (if member ts t then emptied (ms t) else ms t))
unfolding flush_each
flush_each-emptied mmtk [] ms s w = (ms, refl, λ t. refl)
flush_each-emptied mmtk (u ∷ us) ms s w =
    let ms1 = put_mutator ms u (emptied (ms u)) in
    let w1 : (t : ℕ) → IsOpenOrEmpty (ms1 t) = λ t. elim (Bool-cases (t == u)) [
      | inl b ↦ rw b (emptied-IsOpenOrEmpty (ms u))
      | inr b ↦ rw b (w t)
    ] in
    let (ms', e, p) = flush_each-emptied mmtk us ms1 s w1 in
    (
      ms',
      rw (flush_tlab-emptied mmtk (ms u) s (w u)) e,
      λ t. p t ∙ put_mutator-emptied ms u t (member us t),
    )
