-- ===== src/Collection.antt =====
-- vmkit/src/mm/collection.rs and vmkit/src/mm/active_plan.rs: what mmtk asks of the threads. Each
-- thread has a mutator, which a function from the numbers of the threads gives.
pub mod Flushed
pub mod Disabled
mod Tests
use vmkit_core.Prelude.{
  ℕ, Bool, true, if◌then◌else◌, ◌==◌, List, [], ◌∷◌, Option, none, some, ◌>>=◌, length,
}
use vmkit_core.Heap.{Mmtk, Mutator, flush_tlab}
use vmkit_core.Thread.{Thread, ThreadState}
use vmkit_core.Thread.Adapters.{BlockAdapter, gc_block_adapter}
use vmkit_core.Thread.Blocking.{Wait, block_self}
use vmkit_core.Manager.{System, Round, block_all_mutators_for_gc, unblock_all_mutators_for_gc}

abbrev pub put_mutator : (ℕ → Mutator) → ℕ → Mutator → ℕ → Mutator
put_mutator ms t u x = if x == t then u else ms x

-- The loop of `stop_all_mutators`: each thread gives up its buffer before mmtk visits its mutator.
pub flush_each : Mmtk → List ℕ → (ℕ → Mutator) → Option (ℕ → Mutator)
flush_each mmtk [] ms = some ms
flush_each mmtk (t ∷ ts) ms =
    flush_tlab mmtk (ms t) >>= λ u. flush_each mmtk ts (put_mutator ms t u)

-- The mutators that are visited, the system and the mutators afterwards.
pub stop_all_mutators :
    Mmtk → List Round → System → (ℕ → Mutator) → Option (List ℕ × System × (ℕ → Mutator))
unfolding block_all_mutators_for_gc flush_each
stop_all_mutators mmtk rounds sys ms = do
  (mutators, sys') ← block_all_mutators_for_gc rounds sys
  ms' ← flush_each mmtk mutators ms
  some (mutators, sys', ms')

-- For a VM that does nothing at the end of the pause.
unfoldable pub resume_mutators : System → System
resume_mutators sys = unblock_all_mutators_for_gc sys

-- `is_collection_enabled`, which does not read the depth at which collections are disabled.
pub is_collection_enabled : (gc_disabled_depth : ℕ) → Bool
is_collection_enabled gc_disabled_depth = true

unfoldable pub block_for_gc :
    List BlockAdapter → ℕ → List Wait → Thread → Option (ThreadState × Thread)
unfolding block_self
block_for_gc adapters sp ws t = block_self gc_block_adapter adapters sp ws t

pub is_mutator : Thread → Bool
is_mutator t = t.active_mutator_context

pub active_mutators : (ℕ → Thread) → List (Option ℕ) → List ℕ
unfolding is_mutator
active_mutators s [] = []
active_mutators s (none ∷ ts) = active_mutators s ts
active_mutators s (some t ∷ ts) =
    if is_mutator (s t) then t ∷ active_mutators s ts else active_mutators s ts

pub mutators : System → List ℕ
unfolding active_mutators
mutators sys = active_mutators sys.store sys.manager.threads

unfoldable pub number_of_mutators : System → ℕ
unfolding mutators
number_of_mutators sys = length (mutators sys)
