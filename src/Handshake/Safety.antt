-- ===== src/Handshake/Safety.antt =====
-- What a request to block guarantees, in every interleaving.
use vmkit_core.Prelude.{◌≡◌, ◌≢◌, ◌⊎◌, refl, true, false, arith}
use vmkit_core.Thread.{set_exec_status, set_blocked_exec_status, yieldpoints_enabled}
use vmkit_core.Thread.Adapters.{acknowledge_block_requests, is_blocked}
use vmkit_core.Thread.Blocking.{enter_native_blocked_impl}
use vmkit_core.Handshake.{
  managed, entering, checking, dead, free, World, Move, enter_fast, enter_slow, enter_blocked,
  leave_fast, leave_slow, poll, take, defer, skip, block_itself, wait, pass, wake, die, Ask, ask,
  give_up, mark, block_native, let_go, move, asks, Reach, Calm, here, next,
}
use vmkit_core.Handshake.Invariant.{Inv, Quiet-Inv, Reach-Inv}

Move-blocked :
    {w v : World}
    → Move w v
    → Inv w
    → w.thread.is_blocked_for_gc ≡ true
    → v.thread.is_blocked_for_gc ≡ true
unfolding set_exec_status enter_native_blocked_impl acknowledge_block_requests is_blocked
Move-blocked (enter_fast p e) i b = ground arith
Move-blocked (enter_slow p e) i b = ground arith
Move-blocked (enter_blocked p f) i b = ground arith
Move-blocked (leave_fast p e) i b = ground arith
Move-blocked (leave_slow p e) i b = ground arith
Move-blocked (poll p) i b = ground arith
Move-blocked (defer p d) i b = ground arith
Move-blocked (take p f y z) i b = ground arith
Move-blocked (skip p f y z) i b = ground arith
Move-blocked (block_itself p f) i b = ground arith
Move-blocked (wait p f c) i b = ground arith
Move-blocked (pass p f c) i b = ground arith
Move-blocked (wake p) i b = ground arith
Move-blocked (die p f) i b = ground arith

Ask-blocked :
    {w v : World} → Ask w v → w.thread.is_blocked_for_gc ≡ true → v.thread.is_blocked_for_gc ≡ true
unfolding set_exec_status set_blocked_exec_status
Ask-blocked (ask f) b = b
Ask-blocked (give_up r a) b = b
Ask-blocked (mark r a) b = b
Ask-blocked (block_native r) b = refl
Ask-blocked (let_go r n) b = b

Calm-Inv-blocked :
    {w v : World}
    → Calm w v
    → Inv w
    → w.thread.is_blocked_for_gc ≡ true
    → Inv v × (v.thread.is_blocked_for_gc ≡ true)
Calm-Inv-blocked here i b = (i, b)
Calm-Inv-blocked (next c (move m)) i b =
    let r = Calm-Inv-blocked c i b in (Quiet-Inv (move m) r.0, Move-blocked m r.0 r.1)
Calm-Inv-blocked (next c (asks a)) i b =
    let r = Calm-Inv-blocked c i b in (Quiet-Inv (asks a) r.0, Ask-blocked a r.1)

-- In every interleaving of a mutator that was started with requests and releases: once the mutator
-- is blocked for GC, it stays blocked and runs no managed code until it is unblocked, whatever it
-- and those that ask it to block do.
pub Calm-blocked :
    {w v : World}
    → Reach w
    → w.thread.is_blocked_for_gc ≡ true
    → Calm w v
    → (v.thread.is_blocked_for_gc ≡ true) × (v.pc ≢ managed) × (v.pc ≢ entering)
Calm-blocked r b c =
    let i = Calm-Inv-blocked c (Reach-Inv r) b in
    (i.1, ground (arith, i.0.at_pc, i.1), ground (arith, i.0.at_pc, i.1))

-- The mutator runs managed code with yieldpoints disabled, and has noted that one is to be taken.
abbrev pub Deferred : World → Type 0
Deferred v =
    (v.pc ≡ managed)
    × (yieldpoints_enabled v.thread ≡ false)
    × (v.thread.yieldpoint_request_pending ≡ true)

PendingAfter : World → Type 0
PendingAfter v =
    (v.thread.is_blocked_for_gc ≡ true)
    ⊎ ((v.thread.should_block_for_gc ≡ true)
        × ((v.pc ≡ entering) ⊎ (v.pc ≡ checking) ⊎ (v.pc ≡ dead) ⊎ Deferred v))

Move-PendingAfter :
    {w v : World}
    → Move w v
    → Inv w
    → w.request ≡ free
    → w.thread.should_block_for_gc ≡ true
    → PendingAfter v
unfolding PendingAfter set_exec_status enter_native_blocked_impl acknowledge_block_requests
    is_blocked yieldpoints_enabled
Move-PendingAfter (enter_fast p e) i f s = ground arith
Move-PendingAfter (enter_slow p e) i f s = ground arith
Move-PendingAfter (enter_blocked p g) i f s = ground arith
Move-PendingAfter (leave_fast p e) i f s = ground arith
Move-PendingAfter (leave_slow p e) i f s = ground arith
Move-PendingAfter (poll p) i f s = ground arith
Move-PendingAfter (defer p d) i f s = ground (arith, d)
Move-PendingAfter (take p g y z) i f s = ground arith
Move-PendingAfter (skip p g y z) i f s = ground arith
Move-PendingAfter (block_itself p g) i f s = ground arith
Move-PendingAfter (wait p g c) i f s = ground arith
Move-PendingAfter (pass p g c) i f s = ground arith
Move-PendingAfter (wake p) i f s = ground arith
Move-PendingAfter (die p g) i f s = ground arith

-- No request is lost: in every reachable state in which a request is pending, and no requester is
-- in the middle of a request, the mutator's next step either blocks it, or leaves the request
-- pending and the mutator about to lock its monitor or dead, or, where yieldpoints are disabled,
-- leaves the request pending and a yieldpoint noted that is to be taken; it never runs on in native
-- code, nor otherwise in managed code. Enabling and disabling yieldpoints are no steps of the model.
pub Move-pending :
    {w v : World}
    → Reach w
    → w.request ≡ free
    → w.thread.should_block_for_gc ≡ true
    → Move w v
    → (v.thread.is_blocked_for_gc ≡ true)
      ⊎ ((v.thread.should_block_for_gc ≡ true)
          × ((v.pc ≡ entering) ⊎ (v.pc ≡ checking) ⊎ (v.pc ≡ dead) ⊎ Deferred v))
unfolding PendingAfter
Move-pending r f s m = Move-PendingAfter m (Reach-Inv r) f s
