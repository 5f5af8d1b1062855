-- ===== src/Handshake/Invariant.antt =====
-- What ties the place where the mutator stands to the state that other threads see.
use vmkit_core.Prelude.{◌≡◌, ◌≢◌, ◌⊎◌, true, false, arith}
use vmkit_core.Thread.{
  Thread, in_managed, in_native, in_managed_to_block, blocked_in_native, set_exec_status,
  set_blocked_exec_status, yieldpoints_enabled,
}
use vmkit_core.Thread.Adapters.{acknowledge_block_requests, is_blocked}
use vmkit_core.Thread.Blocking.{enter_native_blocked_impl, unblock}
use vmkit_core.Handshake.{
  Pc, managed, entering, native, dead, Request, free, marked, World, Move, enter_fast, enter_slow,
  enter_blocked, leave_fast, leave_slow, poll, take, defer, skip, block_itself, wait, pass, wake,
  die, Ask, ask, give_up, mark, block_native, let_go, Quiet, move, asks, Step, quiet, unblocks,
  Reach, start, later,
}

-- The states that each place allows. Code that is not about to check its requests is not blocked,
-- unless it is native code that has to check before it returns.
abbrev pub AtPc : Pc → Thread → Type 0
AtPc managed t =
    (t.is_blocked_for_gc ≡ false)
    × ((t.exec_status ≡ in_managed) ⊎ (t.exec_status ≡ in_managed_to_block))
AtPc entering t = (t.is_blocked_for_gc ≡ false) × (t.exec_status ≡ in_managed_to_block)
AtPc native t =
    ((t.is_blocked_for_gc ≡ false) × (t.exec_status ≡ in_native))
    ⊎ (t.exec_status ≡ blocked_in_native)
AtPc dead t =
    (t.is_about_to_terminate ≡ true)
    × ((t.exec_status ≡ in_managed) ⊎ (t.exec_status ≡ in_managed_to_block))
AtPc _ t =
    (t.exec_status ≡ in_managed)
    ⊎ (t.exec_status ≡ in_managed_to_block)
    ⊎ (t.exec_status ≡ blocked_in_native)

-- While a requester holds the monitor, the state stays the one that it has set.
abbrev pub AtRequest : Request → Thread → Type 0
AtRequest (marked s) t = (t.exec_status ≡ s) × ((s ≡ in_managed_to_block) ⊎ (s ≡ blocked_in_native))
AtRequest _ t = Unit {0}

-- A request that is pending, with no requester at work, shows in the state of the thread.
abbrev pub Pending : Request → Pc → Thread → Type 0
Pending free managed t = (t.should_block_for_gc ≡ false) ⊎ (t.exec_status ≡ in_managed_to_block)
Pending free native t = t.should_block_for_gc ≡ false
Pending _ _ t = Unit {0}

-- Managed code with a request that is pending takes its next yieldpoint, unless it has disabled them.
abbrev pub Taken : Request → Pc → Thread → Type 0
Taken free managed t =
    (t.should_block_for_gc ≡ false) ⊎ (yieldpoints_enabled t ≡ false) ⊎ (t.take_yieldpoint ≢ 0)
Taken (marked s) managed t = (yieldpoints_enabled t ≡ false) ⊎ (t.take_yieldpoint ≢ 0)
Taken _ _ t = Unit {0}

-- Only a dead mutator is about to terminate.
abbrev pub Alive : Pc → Thread → Type 0
Alive dead t = Unit {0}
Alive _ t = t.is_about_to_terminate ≡ false

pub record Inv (w : World) : Type 0 where
  pub at_pc : AtPc w.pc w.thread
  pub at_request : AtRequest w.request w.thread
  pub pending : Pending w.request w.pc w.thread
  pub taken : Taken w.request w.pc w.thread
  pub alive : Alive w.pc w.thread

Move-Inv : {w v : World} → Move w v → Inv w → Inv v
unfolding set_exec_status enter_native_blocked_impl acknowledge_block_requests is_blocked
    yieldpoints_enabled
Move-Inv (enter_fast p e) i = ground arith
Move-Inv (enter_slow p e) i = ground arith
Move-Inv (enter_blocked p f) i = ground arith
Move-Inv (leave_fast p e) i = ground arith
Move-Inv (leave_slow p e) i = ground arith
Move-Inv (poll p) i = ground arith
Move-Inv (defer p d) i = ground arith
Move-Inv (take p f y z) i = ground arith
Move-Inv (skip p f y z) i = ground arith
Move-Inv (block_itself p f) i = ground arith
Move-Inv (wait p f b) i = ground arith
Move-Inv (pass p f b) i = ground arith
Move-Inv (wake p) i = ground arith
Move-Inv (die p f) i = ground arith

Ask-Inv : {w v : World} → Ask w v → Inv w → Inv v
unfolding set_exec_status set_blocked_exec_status yieldpoints_enabled
Ask-Inv (ask f) i = ground arith
Ask-Inv (give_up r a) i = ground arith
Ask-Inv (mark r a) i = ground arith
Ask-Inv (block_native r) i = ground arith
Ask-Inv (let_go r n) i = ground arith

pub Quiet-Inv : {w v : World} → Quiet w v → Inv w → Inv v
Quiet-Inv (move m) i = Move-Inv m i
Quiet-Inv (asks a) i = Ask-Inv a i

Step-Inv : {w v : World} → Step w v → Inv w → Inv v
unfolding unblock yieldpoints_enabled
Step-Inv (quiet q) i = Quiet-Inv q i
Step-Inv (unblocks f) i = ground arith

-- Each state that a started thread reaches satisfies the invariant.
pub Reach-Inv : {w : World} → Reach w → Inv w
Reach-Inv (start s) =
    ground (arith, s.at_managed, s.in_state, s.unblocked, s.unasked, s.no_request, s.alive)
Reach-Inv (later r s) = Step-Inv s (Reach-Inv r)
