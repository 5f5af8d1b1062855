-- ===== src/Handshake/Pause.antt =====
-- The steps of all mutators and of those that ask them to block, while the world is stopped.
use vmkit_core.Prelude.{
  ℕ, ◌≡◌, ◌≢◌, refl, ap, sym, ◌∙◌, subst, List, inl, inr, true, false, some, arith, ◌==◌,
  if◌then◌else◌, Bool-cases, get_elem?,
}
use vmkit_core.Thread.{Thread, not_running}
use vmkit_core.Manager.{System, Round, block_loop, is_candidate}
use vmkit_core.Manager.Stop.{KeepsSettled, block_loop-Settled}
use vmkit_core.Handshake.{
  Pc, managed, entering, native, checking, waiting, dead, World, Move, enter_fast, enter_slow,
  enter_blocked, leave_fast, leave_slow, poll, take, defer, skip, block_itself, wait, pass, wake,
  die, Ask, ask, give_up, mark, block_native, let_go, Quiet, move, asks, Reach, Calm, here, next,
}
use vmkit_core.Handshake.Invariant.{AtPc, Alive, Reach-Inv}
use vmkit_core.Handshake.Safety.{Calm-blocked}

abbrev pub put_world : (ℕ → World) → ℕ → World → ℕ → World
put_world ws t w x = if x == t then w else ws x

-- A step of one thread, or of one that asks it to block, and a history of such steps.
pub data Turn (ws : ℕ → World) : (ℕ → World) → Type 0 where
  turn : (t : ℕ) {w : World} → Quiet (ws t) w → Turn ws (put_world ws t w)

pub data Pause (ws : ℕ → World) : (ℕ → World) → Type 0 where
  begins : Pause ws ws
  goes_on : {vs us : ℕ → World} → Pause ws vs → Turn vs us → Pause ws us

-- The steps of one thread are a history of it.
Pause-Calm : {ws vs : ℕ → World} → Pause ws vs → (t : ℕ) → Calm (ws t) (vs t)
Pause-Calm begins t = here
Pause-Calm {ws} (goes_on {vs} p (turn u {w} q)) t = elim (Bool-cases (t == u)) [
  | inl b ↦
      let e : t ≡ u = ground (arith, b) in
      rw b (next (Pause-Calm p t) (subst (λ (x : ℕ). Quiet (vs x) w) (sym e) q))
  | inr b ↦ rw b (Pause-Calm p t)
]

Move-alive : {w v : World} → Move w v → w.pc ≢ dead
Move-alive (enter_fast p e) = ground arith
Move-alive (enter_slow p e) = ground arith
Move-alive (enter_blocked p f) = ground arith
Move-alive (leave_fast p e) = ground arith
Move-alive (leave_slow p e) = ground arith
Move-alive (poll p) = ground arith
Move-alive (defer p d) = ground arith
Move-alive (take p f y z) = ground arith
Move-alive (skip p f y z) = ground arith
Move-alive (block_itself p f) = ground arith
Move-alive (wait p f c) = ground arith
Move-alive (pass p f c) = ground arith
Move-alive (wake p) = ground arith
Move-alive (die p f) = ground arith

Ask-pc : {w v : World} → Ask w v → v.pc ≡ w.pc
Ask-pc (ask f) = refl
Ask-pc (give_up r a) = refl
Ask-pc (mark r a) = refl
Ask-pc (block_native r) = refl
Ask-pc (let_go r n) = refl

Calm-dead : {w v : World} → Calm w v → w.pc ≡ dead → v.pc ≡ dead
Calm-dead here d = d
Calm-dead (next c (move m)) d = absurd (Move-alive m (Calm-dead c d))
Calm-dead (next c (asks a)) d = Ask-pc a ∙ Calm-dead c d

-- A mutator that was started runs, and is dead once it is about to terminate.
dead-terminating : (pc : Pc) (t : Thread) → Alive pc t → t.is_about_to_terminate ≡ true → pc ≡ dead
dead-terminating managed t a h = ground arith
dead-terminating entering t a h = ground arith
dead-terminating native t a h = ground arith
dead-terminating checking t a h = ground arith
dead-terminating waiting t a h = ground arith
dead-terminating dead t a h = refl

running : (pc : Pc) (t : Thread) → AtPc pc t → not_running t.exec_status ≡ false
unfolding not_running
running managed t a = ground arith
running entering t a = ground arith
running native t a = ground arith
running checking t a = ground arith
running waiting t a = ground arith
running dead t a = ground arith

-- The loop of `block_all_mutators_for_gc` stops the world: once it has ended, a thread that was
-- registered and took part in collections when the last round listed the threads runs no managed
-- code, in every interleaving of the further steps of all threads and of those that ask them to
-- block, until one is unblocked, if nothing that others do while a round tests the listed threads
-- unblocks or starts it; other threads may otherwise do anything during the loop. The thread has got
-- where it then is by steps of its own and of requesters, since it was started, and the manager sees
-- it as it is.
pub Pause-block_loop :
    {ws vs : ℕ → World} (rounds : List Round) (before listed sys : System) (i t : ℕ)
    → block_loop rounds before ≡ some (listed, sys)
    → KeepsSettled t rounds
    → Reach (ws t)
    → (ws t).thread ≡ sys.store t
    → get_elem? listed.manager.threads i ≡ some (some t)
    → is_candidate (listed.store t) ≡ true
    → Pause ws vs
    → ((vs t).pc ≢ managed) × ((vs t).pc ≢ entering)
Pause-block_loop {ws} {vs} rounds before listed sys i t e keep r same at c p =
    let inv = Reach-Inv r in
    elim (block_loop-Settled rounds before listed sys i t e at c keep) [
      | inl b ↦
          let (_, m, n) =
            Calm-blocked r (ap (λ (u : Thread). u.is_blocked_for_gc) same ∙ b) (Pause-Calm p t) in
          (m, n)
      | inr (inl d) ↦
          let gone : (vs t).pc ≡ dead = Calm-dead (Pause-Calm p t) (
            dead-terminating (ws t).pc (ws t).thread inv.alive
              (ap (λ (u : Thread). u.is_about_to_terminate) same ∙ d)) in
          (λ q. ground (arith, gone, q), λ q. ground (arith, gone, q))
      | inr (inr n) ↦ absurd (ground (arith, n, same, running (ws t).pc (ws t).thread inv.at_pc))
    ]
