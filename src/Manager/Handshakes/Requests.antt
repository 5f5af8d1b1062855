-- ===== src/Manager/Handshakes/Requests.antt =====
-- What a soft handshake asks of a thread, and when it returns.
use vmkit_core.Prelude.{
  ℕ, ◌+◌, ◌<◌, ◌≡◌, ◌∙◌, sym, refl, ap, inl, inr, Bool, true, false, not, if◌then◌else◌, List, [],
  ◌∷◌, none, some, arith, Bool-cases, Option-cases, length,
}
use vmkit_core.Prelude.Words.{wrap}
use vmkit_core.Thread.{Thread, in_managed_to_block, set_blocked_exec_status, is_in_managed}
use vmkit_core.Thread.Status.{is_in_managed-set_blocked_exec_status}
use vmkit_core.Manager.{System, Event, put, process_about_to_terminate}
use vmkit_core.Manager.Handshakes.{
  Visitor, included, snapshot_handshake_threads, request_wanted, request_handshake,
  wait_for_handshake, handshake_loop, drain, soft_handshake,
}

-- A counter above 0 is waited for without an end.
wait_for_handshake-stuck :
    (ws : List Event) (left : ℕ) (sys : System) → 0 < left → wait_for_handshake ws left sys ≡ none
unfolding wait_for_handshake
wait_for_handshake-stuck [] left sys h = ground (arith, h)
wait_for_handshake-stuck (w ∷ ws) left sys h =
    ground (arith, h, wait_for_handshake-stuck ws left (w sys) h)

wait_for_handshake-zero : (ws : List Event) (sys : System) → wait_for_handshake ws 0 sys ≡ some sys
unfolding wait_for_handshake
wait_for_handshake-zero [] sys = refl
wait_for_handshake-zero (w ∷ ws) sys = refl

-- The handshake waits for this thread.
abbrev pub Awaited : Visitor → Thread → Type 0
Awaited v t = (request_handshake v t).1 ≡ true

-- The first thread of the loop that is waited for makes the loop wait for ever.
handshake_loop-stuck :
    (waits : ℕ → List Event) (v : Visitor) (t : ℕ) (ts : List ℕ) (sys : System)
    → Awaited v (sys.store t)
    → handshake_loop waits v 0 (t ∷ ts) sys ≡ none
unfolding handshake_loop
handshake_loop-stuck waits v t ts sys h =
    let u = (request_handshake v (sys.store t)).0 in
    let s =
      wait_for_handshake-stuck (waits t) (wrap (0 + 1)) (record sys { store = put sys.store t u })
        (omega arith) in
    rw (h, s) refl

drain-length : (xs : List ℕ) → drain (length xs) xs ≡ (xs, [])
unfolding drain
drain-length [] = refl
drain-length (x ∷ xs) = ap (λ (r : List ℕ × List ℕ). (x ∷ r.0, r.1)) (drain-length xs)

handshake_loop-returns :
    (waits waits' : ℕ → List Event) (v : Visitor) (ts : List ℕ) (sys : System) (r : ℕ × System)
    → handshake_loop waits v 0 ts sys ≡ some r
    → (handshake_loop waits' v 0 ts sys ≡ some r) × (r.0 ≡ 0)
unfolding handshake_loop
handshake_loop-returns waits waits' v [] sys r e = (e, ground (arith, e))
handshake_loop-returns waits waits' v (t ∷ ts) sys r e =
    elim (Bool-cases ((request_handshake v (sys.store t)).1)) [
      | inl b ↦ ground (arith, handshake_loop-stuck waits v t ts sys b, e)
      | inr b ↦
          let u = (request_handshake v (sys.store t)).0 in
          let sys1 : System = record sys { store = put sys.store t u } in
          let z = wait_for_handshake-zero (waits t) sys1 in
          let z' = wait_for_handshake-zero (waits' t) sys1 in
          elim (Option-cases (process_about_to_terminate sys1)) [
            | inl o ↦
                let n : handshake_loop waits v 0 (t ∷ ts) sys ≡ none = rw (b, z, o) refl in
                ground (arith, n, e)
            | inr (sys2, o) ↦
                let step : handshake_loop waits v 0 (t ∷ ts) sys
                    ≡ handshake_loop waits v 0 ts sys2 =
                  rw (b, z, o) refl in
                let step' : handshake_loop waits' v 0 (t ∷ ts) sys
                    ≡ handshake_loop waits' v 0 ts sys2 =
                  rw (b, z', o) refl in
                let (same, none_left) =
                  handshake_loop-returns waits waits' v ts sys2 r (sym step ∙ e) in
                (step' ∙ same, none_left)
          ]
    ]

-- A soft handshake, started with the counter at 0 and no thread in the queue, never returns after a
-- wait: if it returns then it does so with the counter at 0, and alike whatever happens in the waits;
-- and if the first included thread is one to wait for, it returns for no behaviour of the others.
pub soft_handshake-never_waits :
    (v : Visitor) (sys : System)
    → ((waits waits' : ℕ → List Event) (r : ℕ × List ℕ × System)
        → soft_handshake waits v 0 [] sys ≡ some r
        → (soft_handshake waits' v 0 [] sys ≡ some r) × (r.0 ≡ 0))
      × ((waits : ℕ → List Event) (t : ℕ) (ts : List ℕ)
          → included v sys.store sys.manager.threads ≡ t ∷ ts
          → Awaited v (sys.store t)
          → soft_handshake waits v 0 [] sys ≡ none)
unfolding soft_handshake snapshot_handshake_threads
soft_handshake-never_waits v sys =
    let pushed = included v sys.store sys.manager.threads in
    let d = drain-length pushed in
    (
      λ waits waits' r e. elim (Option-cases (handshake_loop waits v 0 pushed sys)) [
        | inl o ↦
            let n : soft_handshake waits v 0 [] sys ≡ none = rw (d, o) refl in ground (arith, n, e)
        | inr (q, o) ↦
            let (same, none_left) = handshake_loop-returns waits waits' v pushed sys q o in
            let f : soft_handshake waits v 0 [] sys ≡ some (q.0, [], q.1) = rw (d, o) refl in
            let g : soft_handshake waits' v 0 [] sys ≡ some (q.0, [], q.1) = rw (d, same) refl in
            let k : some (q.0, [], q.1) ≡ some r = sym f ∙ e in
            (g ∙ k, ground (arith, k, none_left))
      ],
      λ waits t ts p h.
          let n : handshake_loop waits v 0 pushed sys ≡ none =
            rw p (handshake_loop-stuck waits v t ts sys h) in
          rw (d, n) refl,
    )

choose-last :
    {A : Type 0} (a i : Bool) (x y z : A)
    → a ≡ false
    → i ≡ true
    → (if a then x else (if not i then y else z)) ≡ z
choose-last a i x y z h g = rw (h, g) refl

choose-true :
    (a i : Bool) (x y z : Thread × Bool)
    → x.1 ≡ false
    → y.1 ≡ false
    → (if a then x else (if not i then y else z)).1 ≡ true
    → (a ≡ false) × (i ≡ true) × (z.1 ≡ true)
choose-true true i x y z p q h = ground (arith, p, h)
choose-true false true x y z p q h = (refl, refl, h)
choose-true false false x y z p q h = ground (arith, q, h)

either-true :
    (b : Bool) (x y : Thread × Bool) → y.1 ≡ false → (if b then x else y).1 ≡ true → b ≡ true
either-true true x y q h = refl
either-true false x y q h = ground (arith, q, h)

either-first : {A : Type 0} (b : Bool) (x y : A) → b ≡ true → (if b then x else y) ≡ x
either-first b x y h = rw h refl

request_wanted-Awaited :
    (v : Visitor) (t : Thread)
    → let r = request_wanted v t in
      (r.1 ≡ true
        → (is_in_managed t ≡ true)
          × (r.0.take_yieldpoint ≡ 1)
          × (r.0.soft_handshake_requested ≡ true)
          × (r.0.exec_status ≡ in_managed_to_block))
      × (is_in_managed t ≡ true → r.1 ≡ true)
unfolding request_wanted
request_wanted-Awaited v t =
    let u = (set_blocked_exec_status t).1 in
    let asked : Thread = record u { soft_handshake_requested = true; take_yieldpoint = 1 } in
    let native = v.notify_stuck_in_native u in
    let (kept, to_block) = is_in_managed-set_blocked_exec_status t in
    (
      λ h.
          let m : is_in_managed u ≡ true =
            either-true (is_in_managed u) (asked, true) (native, false) refl h in
          let same = either-first (is_in_managed u) (asked, true) (native, false) m in
          (
            sym kept ∙ m,
            ap (λ (k : Thread × Bool). (k.0).take_yieldpoint) same,
            ap (λ (k : Thread × Bool). (k.0).soft_handshake_requested) same,
            ap (λ (k : Thread × Bool). (k.0).exec_status) same ∙ to_block (sym kept ∙ m),
          ),
      λ m.
          ap (λ (k : Thread × Bool). k.1)
            (either-first (is_in_managed u) (asked, true) (native, false) (kept ∙ m)),
    )

-- The handshake waits for a thread exactly if it is not about to terminate, the visitor wants it,
-- and it then runs managed code; such a thread is asked to take a yieldpoint, and its state says that
-- it has to block.
pub request_handshake-Awaited :
    (v : Visitor) (t : Thread)
    → let (interested, t1) = v.check_and_signal t in
      (Awaited v t
        → (t.is_about_to_terminate ≡ false)
          × (interested ≡ true)
          × (is_in_managed t1 ≡ true)
          × ((request_handshake v t).0.take_yieldpoint ≡ 1)
          × ((request_handshake v t).0.soft_handshake_requested ≡ true)
          × ((request_handshake v t).0.exec_status ≡ in_managed_to_block))
      × (t.is_about_to_terminate ≡ false
          → interested ≡ true
          → is_in_managed t1 ≡ true
          → Awaited v t)
unfolding request_handshake
request_handshake-Awaited v t =
    let (interested, signalled) = v.check_and_signal t in
    let wanted = request_wanted v signalled in
    (
      λ h.
          let (a, i, w) =
            choose-true t.is_about_to_terminate interested (t, false) (signalled, false) wanted refl
              refl h in
          let same =
            choose-last t.is_about_to_terminate interested (t, false) (signalled, false) wanted a
              i in
          let (m, y, r, e) = (request_wanted-Awaited v signalled).0 w in
          (
            a,
            i,
            m,
            ap (λ (k : Thread × Bool). (k.0).take_yieldpoint) same ∙ y,
            ap (λ (k : Thread × Bool). (k.0).soft_handshake_requested) same ∙ r,
            ap (λ (k : Thread × Bool). (k.0).exec_status) same ∙ e,
          ),
      λ a i m.
          ap (λ (k : Thread × Bool). k.1)
            (choose-last t.is_about_to_terminate interested (t, false) (signalled, false) wanted a
              i)
          ∙ (request_wanted-Awaited v signalled).1 m,
    )
