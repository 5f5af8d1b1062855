-- ===== src/Manager/Stop.antt =====
-- What `block_all_mutators_for_gc` has reached when its loop ends.
use vmkit_core.Prelude.{
  ℕ, zero, suc, ◌≡◌, ◌∙◌, ◌⊎◌, inl, inr, ap, length, true, false, List, [], ◌∷◌, Option, none, some,
  arith, get_elem?, Bool-cases, Option-cases, List-cases, subst,
}
use vmkit_core.Thread.{Thread, not_running}
use vmkit_core.Thread.Blocking.{request_block_on, unblock}
use vmkit_core.Manager.{
  System, Event, Round, is_candidate, candidates, try_block, retain_running, try_block_all,
  block_loop, block_each, unblock_each, unblock_all_mutators_for_gc,
}

-- A thread that does no work for the mutator: it is blocked for GC, or about to terminate, or in a
-- state that counts as not running.
abbrev pub Settled : Thread → Type 0
Settled t =
    (t.is_blocked_for_gc ≡ true)
    ⊎ (t.is_about_to_terminate ≡ true)
    ⊎ (not_running t.exec_status ≡ true)

try_block-keeps : (s : ℕ → Thread) (t u : ℕ) → Settled (s u) → Settled ((try_block s t).0 u)
unfolding try_block request_block_on not_running
try_block-keeps s t u h = ground arith

try_block-drops :
    (s : ℕ → Thread) (t : ℕ) → (try_block s t).1 ≡ false → Settled ((try_block s t).0 t)
unfolding try_block request_block_on not_running
try_block-drops s t h = ground arith

-- Nothing that others do while the listed threads are tested unblocks or starts the thread `t`.
abbrev pub KeepsSettled : ℕ → List Round → Type 0
KeepsSettled t [] = Unit {0}
KeepsSettled t (r ∷ rounds) =
    ((n : ℕ) (sys : System) → Settled (sys.store t) → Settled ((r.before_test n sys).store t))
    × KeepsSettled t rounds

module _ (before_test : ℕ → Event) (t : ℕ)
    (keep : (n : ℕ) (sys : System)
      → Settled (sys.store t)
      → Settled ((before_test n sys).store t)) where
  retain_running-keeps :
      (sys : System) (ts : List ℕ)
      → Settled (sys.store t)
      → Settled ((retain_running before_test sys ts).0.store t)
  unfolding retain_running
  retain_running-keeps sys [] h = keep 0 sys h
  retain_running-keeps sys (u ∷ ts) h =
      let sys1 = before_test (length (u ∷ ts)) sys in
      retain_running-keeps (record sys1 { store = (try_block sys1.store u).0 }) ts
        (try_block-keeps sys1.store u t (keep (length (u ∷ ts)) sys h))

  retain_running-Settled :
      (sys : System) (ts : List ℕ) (k : ℕ)
      → get_elem? ts k ≡ some t
      → (retain_running before_test sys ts).1 ≡ []
      → Settled ((retain_running before_test sys ts).0.store t)
  unfolding retain_running
  retain_running-Settled sys [] k at h = absurd (ground (arith, at))
  retain_running-Settled sys (u ∷ ts) zero at h =
      let sys1 = before_test (length (u ∷ ts)) sys in
      let sys2 = record sys1 { store = (try_block sys1.store u).0 } in
      let q : u ≡ t = ground (arith, at) in
      elim (Bool-cases (try_block sys1.store u).1) [
        | inl b ↦ absurd (ground (arith, b, h))
        | inr b ↦ retain_running-keeps sys2 ts (
            subst (λ (x : ℕ). Settled ((try_block sys1.store u).0 x)) q
              (try_block-drops sys1.store u b))
      ]
  retain_running-Settled sys (u ∷ ts) (suc k) at h =
      let sys1 = before_test (length (u ∷ ts)) sys in
      elim (Bool-cases (try_block sys1.store u).1) [
        | inl b ↦ absurd (ground (arith, b, h))
        | inr b ↦
            retain_running-Settled (record sys1 { store = (try_block sys1.store u).0 }) ts k at
              (ground (arith, b, h))
      ]

candidates-listed :
    (s : ℕ → Thread) (ts : List (Option ℕ)) (i t : ℕ)
    → get_elem? ts i ≡ some (some t)
    → is_candidate (s t) ≡ true
    → (k : ℕ) × (get_elem? (candidates s ts) k ≡ some t)
unfolding candidates
candidates-listed s [] i t e c = absurd (ground (arith, e))
candidates-listed s (none ∷ ts) zero t e c = absurd (ground (arith, e))
candidates-listed s (none ∷ ts) (suc i) t e c = candidates-listed s ts i t e c
candidates-listed s (some u ∷ ts) zero t e c =
    let q : u ≡ t = ground (arith, e) in (0, ground (arith, q, c))
candidates-listed s (some u ∷ ts) (suc i) t e c =
    let (k, h) = candidates-listed s ts i t e c in
    elim (Bool-cases (is_candidate (s u))) [
      | inl b ↦ (suc k, ground (arith, b, h))
      | inr b ↦ (k, ground (arith, b, h))
    ]

-- However the other threads behave before a round lists the threads, while it asks them to block and
-- while it waits: when the loop of `block_all_mutators_for_gc` ends, each thread that was registered,
-- no collector and not ignoring handshakes when the last round listed the threads is blocked for GC,
-- about to terminate, or not running, if nothing that others do while a round tests the threads
-- unblocks or starts it. Threads that were registered in the loop up to the last listing are
-- included.
pub block_loop-Settled :
    (rounds : List Round) (sys listed sys' : System) (i t : ℕ)
    → block_loop rounds sys ≡ some (listed, sys')
    → get_elem? listed.manager.threads i ≡ some (some t)
    → is_candidate (listed.store t) ≡ true
    → KeepsSettled t rounds
    → Settled (sys'.store t)
unfolding block_loop try_block_all
block_loop-Settled [] sys listed sys' i t e at c keep = absurd (ground (arith, e))
block_loop-Settled (r ∷ rounds) sys listed sys' i t e at c keep =
    let l = r.before_listing sys in
    let cs = candidates l.store l.manager.threads in
    elim (List-cases (retain_running r.before_test l cs).1) [
      | inl n ↦
          let p : l ≡ listed = ground (arith, e, n) in
          let q : (retain_running r.before_test l cs).0 ≡ sys' = ground (arith, e, n) in
          let at' : get_elem? l.manager.threads i ≡ some (some t) =
            ap (λ (x : System). get_elem? x.manager.threads i) p ∙ at in
          let c' : is_candidate (l.store t) ≡ true =
            ap (λ (x : System). is_candidate (x.store t)) p ∙ c in
          let (k, h) = candidates-listed l.store l.manager.threads i t at' c' in
          subst (λ (x : System). Settled (x.store t)) q
            (retain_running-Settled r.before_test t keep.0 l cs k h n)
      | inr (u, us, n) ↦
          elim (Option-cases (block_each r (u ∷ us) (retain_running r.before_test l cs).0)) [
            | inl o ↦ absurd (ground (arith, e, n, o))
            | inr (v, o) ↦
                block_loop-Settled rounds v listed sys' i t (ground (arith, e, n, o)) at c keep.1
          ]
    ]

unblock_each-blocked :
    (s : ℕ → Thread) (ts : List (Option ℕ)) (i t : ℕ)
    → get_elem? ts i ≡ some (some t)
    → (s t).has_collector_context ≡ false
    → let u = unblock_each s ts t in (u.is_blocked_for_gc ≡ false) × (u.should_block_for_gc ≡ false)
unfolding unblock_each unblock
unblock_each-blocked s [] i t e c = ground arith
unblock_each-blocked s (none ∷ ts) zero t e c = ground arith
unblock_each-blocked s (none ∷ ts) (suc i) t e c = unblock_each-blocked s ts i t e c
unblock_each-blocked s (some u ∷ ts) zero t e c = ground arith
unblock_each-blocked s (some u ∷ ts) (suc i) t e c =
    ground (arith, unblock_each-blocked s ts i t e c)

-- `unblock_all_mutators_for_gc` leaves no registered thread but the collectors with a block for GC
-- or a request for one.
pub unblock_all_mutators_for_gc-unblocked :
    (sys : System) (i t : ℕ)
    → get_elem? sys.manager.threads i ≡ some (some t)
    → (sys.store t).has_collector_context ≡ false
    → let u = (unblock_all_mutators_for_gc sys).store t in
      (u.is_blocked_for_gc ≡ false) × (u.should_block_for_gc ≡ false)
unfolding unblock_all_mutators_for_gc
unblock_all_mutators_for_gc-unblocked sys i t e c =
    unblock_each-blocked sys.store sys.manager.threads i t e c
