-- ===== src/Manager/Signals/Nested.antt =====
-- Suspension and resumption of all mutators.
use vmkit_core.Prelude.{
  ℕ, zero, suc, ◌+◌, ◌^◌, ◌<◌, ◌≡◌, ◌≢◌, ◌∙◌, sym, refl, ap, inl, inr, Bool, true, false, not, ◌&&◌,
  List, [], ◌∷◌, Option, none, some, ◌==◌, arith, get_elem?, Bool-cases, Option-cases, subst,
}
use vmkit_core.Thread.{Thread}
use vmkit_core.Thread.Blocking.{unblock}
use vmkit_core.Thread.Suspension.{suspend, resume, resume-suspend, suspend-flags}
use vmkit_core.Manager.{put, is_candidate}
use vmkit_core.Manager.Signals.{suspend_each, resume_one, resume_each}

-- A thread is in no slot.
abbrev pub Absent : List (Option ℕ) → ℕ → Type 0
Absent ts t = (j : ℕ) → get_elem? ts j ≢ some (some t)

abbrev suspendable : Thread → Bool
suspendable t = is_candidate t && not t.is_about_to_terminate

suspend_each-Absent :
    (attempts : ℕ → List (Bool × ℕ)) (s : ℕ → Thread) (ts : List (Option ℕ)) (s' : ℕ → Thread)
    (l : List ℕ) (t : ℕ)
    → suspend_each attempts s ts ≡ some (s', l)
    → Absent ts t
    → s' t ≡ s t
unfolding suspend_each
suspend_each-Absent attempts s [] s' l t e a = ground (arith, e)
suspend_each-Absent attempts s (none ∷ ts) s' l t e a =
    suspend_each-Absent attempts s ts s' l t e (λ j. a (suc j))
suspend_each-Absent attempts s (some u ∷ ts) s' l t e a =
    let ne : (t == u) ≡ false = ground (arith, a 0) in
    elim (Bool-cases (suspendable (s u))) [
      | inr b ↦ suspend_each-Absent attempts s ts s' l t (ground (arith, b, e)) (λ j. a (suc j))
      | inl b ↦ elim (Option-cases (suspend (attempts u) (s u))) [
        | inl o ↦ ground (arith, b, o, e)
        | inr (r, o) ↦ elim (Option-cases (suspend_each attempts (put s u r.1) ts)) [
          | inl o' ↦ ground (arith, b, o, o', e)
          | inr (rest, o') ↦
              let q : rest.0 ≡ s' = ground (arith, b, o, o', e) in
              let i =
                suspend_each-Absent attempts (put s u r.1) ts rest.0 rest.1 t o' (λ j. a (suc j)) in
              ap (λ (k : ℕ → Thread). k t) (sym q) ∙ i ∙ rw ne refl
        ]
      ]
    ]

-- The slot `i` is the only one with the thread.
abbrev pub OnlyAt : List (Option ℕ) → ℕ → ℕ → Type 0
OnlyAt ts i t =
    (get_elem? ts i ≡ some (some t)) × ((j : ℕ) → get_elem? ts j ≡ some (some t) → j ≡ i)

OnlyAt-later :
    (x : Option ℕ) (ts : List (Option ℕ)) (i t : ℕ) → OnlyAt (x ∷ ts) (suc i) t → OnlyAt ts i t
OnlyAt-later x ts i t o = (o.0, λ j e. omega (arith, o.1 (suc j) e))

OnlyAt-Absent : (x : Option ℕ) (ts : List (Option ℕ)) (t : ℕ) → OnlyAt (x ∷ ts) 0 t → Absent ts t
OnlyAt-Absent x ts t o j e = absurd (omega (arith, o.1 (suc j) e))

OnlyAt-apart :
    (u : ℕ) (ts : List (Option ℕ)) (i t : ℕ) → OnlyAt (some u ∷ ts) (suc i) t → (t == u) ≡ false
OnlyAt-apart u ts i t o = elim (Bool-cases (t == u)) [
  | inr b ↦ b
  | inl b ↦
      let q : u ≡ t = ground (arith, b) in
      absurd (omega (arith, o.1 0 (ap (λ (k : ℕ). some (some k)) q)))
]

suspend_each-head :
    (attempts : ℕ → List (Bool × ℕ)) (s : ℕ → Thread) (ts : List (Option ℕ)) (s' : ℕ → Thread)
    (l : List ℕ) (t : ℕ) (r : Bool × Thread)
    → suspend_each attempts s (some t ∷ ts) ≡ some (s', l)
    → Absent ts t
    → suspendable (s t) ≡ true
    → suspend (attempts t) (s t) ≡ some r
    → s' t ≡ r.1
unfolding suspend_each
suspend_each-head attempts s ts s' l t r e a b c =
    let self : (t == t) ≡ true = ground arith in
    elim (Option-cases (suspend_each attempts (put s t r.1) ts)) [
      | inl k ↦ ground (arith, b, c, k, e)
      | inr (rest, k) ↦
          let same : rest.0 ≡ s' = ground (arith, b, c, k, e) in
          ap (λ (f : ℕ → Thread). f t) (sym same)
          ∙ suspend_each-Absent attempts (put s t r.1) ts rest.0 rest.1 t k a
          ∙ rw self refl
    ]

suspend_each-OnlyAt :
    (attempts : ℕ → List (Bool × ℕ)) (s : ℕ → Thread) (ts : List (Option ℕ)) (s' : ℕ → Thread)
    (l : List ℕ) (i t : ℕ) (r : Bool × Thread)
    → suspend_each attempts s ts ≡ some (s', l)
    → OnlyAt ts i t
    → suspendable (s t) ≡ true
    → suspend (attempts t) (s t) ≡ some r
    → s' t ≡ r.1
unfolding suspend_each
suspend_each-OnlyAt attempts s [] s' l i t r e o b c = ground (arith, o.0)
suspend_each-OnlyAt attempts s (none ∷ ts) s' l zero t r e o b c = ground (arith, o.0)
suspend_each-OnlyAt attempts s (none ∷ ts) s' l (suc i) t r e o b c =
    suspend_each-OnlyAt attempts s ts s' l i t r e (OnlyAt-later none ts i t o) b c
suspend_each-OnlyAt attempts s (some u ∷ ts) s' l zero t r e o b c =
    let q : u ≡ t = ground (arith, o.0) in
    let e' = subst (λ (k : ℕ). suspend_each attempts s (some k ∷ ts) ≡ some (s', l)) q e in
    suspend_each-head attempts s ts s' l t r e' (OnlyAt-Absent (some u) ts t o) b c
suspend_each-OnlyAt attempts s (some u ∷ ts) s' l (suc i) t r e o b c =
    let ne = OnlyAt-apart u ts i t o in
    let later = OnlyAt-later (some u) ts i t o in
    elim (Bool-cases (suspendable (s u))) [
      | inr n ↦ suspend_each-OnlyAt attempts s ts s' l i t r (ground (arith, n, e)) later b c
      | inl n ↦ elim (Option-cases (suspend (attempts u) (s u))) [
        | inl k ↦ ground (arith, n, k, e)
        | inr (q, k) ↦ elim (Option-cases (suspend_each attempts (put s u q.1) ts)) [
          | inl k' ↦ ground (arith, n, k, k', e)
          | inr (rest, k') ↦
              let same : rest.0 ≡ s' = ground (arith, n, k, k', e) in
              let b' : suspendable (put s u q.1 t) ≡ true = rw ne b in
              let c' : suspend (attempts t) (put s u q.1 t) ≡ some r = rw ne c in
              ap (λ (f : ℕ → Thread). f t) (sym same)
              ∙ suspend_each-OnlyAt attempts (put s u q.1) ts rest.0 rest.1 i t r k' later b' c'
        ]
      ]
    ]

resume_each-Absent :
    (gone : ℕ → Bool) (s : ℕ → Thread) (ts : List (Option ℕ)) (t : ℕ)
    → Absent ts t
    → resume_each gone s ts t ≡ s t
unfolding resume_each
resume_each-Absent gone s [] t a = refl
resume_each-Absent gone s (none ∷ ts) t a = resume_each-Absent gone s ts t (λ j. a (suc j))
resume_each-Absent gone s (some u ∷ ts) t a =
    let ne : (t == u) ≡ false = ground (arith, a 0) in
    elim (Bool-cases (is_candidate (s u))) [
      | inr b ↦ rw b (resume_each-Absent gone s ts t (λ j. a (suc j)))
      | inl b ↦ rw b (
          resume_each-Absent gone (put s u (resume_one (gone u) (s u))) ts t (λ j. a (suc j))
          ∙ rw ne refl)
    ]

resume_each-OnlyAt :
    (gone : ℕ → Bool) (s : ℕ → Thread) (ts : List (Option ℕ)) (i t : ℕ)
    → OnlyAt ts i t
    → is_candidate (s t) ≡ true
    → resume_each gone s ts t ≡ resume_one (gone t) (s t)
unfolding resume_each
resume_each-OnlyAt gone s [] i t o c = ground (arith, o.0)
resume_each-OnlyAt gone s (none ∷ ts) zero t o c = ground (arith, o.0)
resume_each-OnlyAt gone s (none ∷ ts) (suc i) t o c =
    resume_each-OnlyAt gone s ts i t (OnlyAt-later none ts i t o) c
resume_each-OnlyAt gone s (some u ∷ ts) zero t o c =
    let q : u ≡ t = ground (arith, o.0) in
    let self : (t == t) ≡ true = ground arith in
    let head : resume_each gone s (some t ∷ ts) t ≡ resume_one (gone t) (s t) = rw c (
      resume_each-Absent gone (put s t (resume_one (gone t) (s t))) ts t
        (OnlyAt-Absent (some u) ts t o)
      ∙ rw self refl) in
    subst (λ (k : ℕ). resume_each gone s (some k ∷ ts) t ≡ resume_one (gone t) (s t)) (sym q) head
resume_each-OnlyAt gone s (some u ∷ ts) (suc i) t o c =
    let ne = OnlyAt-apart u ts i t o in
    let later = OnlyAt-later (some u) ts i t o in
    elim (Bool-cases (is_candidate (s u))) [
      | inr b ↦ rw b (resume_each-OnlyAt gone s ts i t later c)
      | inl b ↦
          let s1 = put s u (resume_one (gone u) (s u)) in
          let same : s1 t ≡ s t = rw ne refl in
          rw b (
            resume_each-OnlyAt gone s1 ts i t later (rw ne c)
            ∙ ap (λ (k : Thread). resume_one (gone t) k) same)
    ]

resume_one-count :
    (t : Thread) → (resume_one false t).suspend_count ≡ (resume false t).suspend_count
unfolding resume_one unblock
resume_one-count t = elim (Bool-cases ((resume false t).is_blocked_for_gc)) [
  | inl b ↦ rw b refl
  | inr b ↦ rw b refl
]

-- Stopping all mutators by signals and letting them go again, for a thread in one slot that takes
-- part in collections, is not about to terminate and is suspended fewer than 2^64 - 1 times: if it
-- is found, it is suspended in between, by its own attempts whatever happens to the others; and if
-- it has not ended by then, it has the count afterwards that it had before.
pub resume_each-suspend_each :
    (attempts : ℕ → List (Bool × ℕ)) (gone : ℕ → Bool) (s s' : ℕ → Thread) (ts : List (Option ℕ))
    (l : List ℕ) (i t : ℕ) (u : Thread)
    → suspend_each attempts s ts ≡ some (s', l)
    → OnlyAt ts i t
    → is_candidate (s t) ≡ true
    → (s t).is_about_to_terminate ≡ false
    → (s t).suspend_count + 1 < 2 ^ 64
    → suspend (attempts t) (s t) ≡ some (true, u)
    → gone t ≡ false
    → (s' t ≡ u)
      × ((s' t).suspend_count ≢ 0)
      × ((resume_each gone s' ts t).suspend_count ≡ (s t).suspend_count)
unfolding is_candidate
resume_each-suspend_each attempts gone s s' ts l i t u e o c about h found alive =
    let b : suspendable (s t) ≡ true = ground (arith, c, about) in
    let q : s' t ≡ u = suspend_each-OnlyAt attempts s ts s' l i t (true, u) e o b found in
    let (count, positive, sp) = resume-suspend (attempts t) (s t) u h found in
    let flags = suspend-flags (attempts t) (s t) true u found in
    let c' : is_candidate (s' t) ≡ true = rw q (ground (arith, flags, c)) in
    (
      q,
      rw q positive,
      ap (λ (k : Thread). k.suspend_count) (resume_each-OnlyAt gone s' ts i t o c')
          ∙ rw (q, alive) (resume_one-count u ∙ count),
    )
