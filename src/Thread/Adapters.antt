-- ===== src/Thread/Adapters.antt =====
-- vmkit/src/threading.rs: block adapters, each a reason for which a thread can be blocked, and
-- lists of them.
use vmkit_core.Prelude.{Bool, true, false, ◌||◌, if◌then◌else◌, List, [], ◌∷◌}
use vmkit_core.Thread.{Thread}

-- The token that `request_block` returns is only handed back, so it is left out.
pub record BlockAdapter : Type 0 where
  pub is_blocked : Thread → Bool
  pub set_blocked : Thread → Bool → Thread
  pub request_block : Thread → Thread
  pub has_block_request : Thread → Bool
  pub clear_block_request : Thread → Thread

abbrev pub gc_block_adapter : BlockAdapter
gc_block_adapter = record {
  is_blocked = λ t. t.is_blocked_for_gc;
  set_blocked = λ t value. record t { is_blocked_for_gc = value };
  request_block = λ t. record t { should_block_for_gc = true };
  has_block_request = λ t. t.should_block_for_gc;
  clear_block_request = λ t. record t { should_block_for_gc = false };
}

-- The adapter `()`, which never blocks.
abbrev pub unit_block_adapter : BlockAdapter
unit_block_adapter = record {
  is_blocked = λ t. false;
  set_blocked = λ t value. t;
  request_block = λ t. t;
  has_block_request = λ t. false;
  clear_block_request = λ t. t;
}

-- Whether there was a request, and the thread afterwards, from the first adapter to the last.
unfoldable pub acknowledge_block_requests : List BlockAdapter → Thread → Bool × Thread
acknowledge_block_requests [] t = (false, t)
acknowledge_block_requests (x ∷ xs) t =
    if x.has_block_request t
    then (true, (acknowledge_block_requests xs (x.clear_block_request (x.set_blocked t true))).1)
    else acknowledge_block_requests xs t

unfoldable pub is_blocked : List BlockAdapter → Thread → Bool
is_blocked [] t = false
is_blocked (x ∷ xs) t = x.is_blocked t || is_blocked xs t

-- `BlockAdapterList` of BDWGC in vmkit/src/bdwgc_shim.rs.
abbrev pub gc_adapters : List BlockAdapter
gc_adapters = gc_block_adapter ∷ unit_block_adapter ∷ []
