-- ===== src/Collection/Disabled.antt =====
-- What disabling collections does to collections.
use vmkit_core.Prelude.{ℕ, ◌+◌, ◌<◌, ◌≡◌, ◌≢◌, refl, inl, inr, true, false, List, Bool-cases}
use vmkit_core.Prelude.Words.{word_mod}
use vmkit_core.Heap.{is_gc_enabled}
use vmkit_core.Heap.Disabling.{Request, run, disables, enables, IsNested, is_gc_enabled-nested}
use vmkit_core.Collection.{is_collection_enabled}

-- After nested requests to disable and enable collections that leave a region open, where the depth
-- before and the requests to disable are together below 2^64, collections count as disabled; but
-- mmtk, when it asks before a collection, is still told that they are enabled.
pub is_collection_enabled-run :
    (requests : List Request) (depth : ℕ)
    → IsNested requests depth
    → depth + disables requests < word_mod
    → enables requests ≢ depth + disables requests
    → (is_gc_enabled (run requests depth) ≡ false)
      × (is_collection_enabled (run requests depth) ≡ true)
unfolding is_collection_enabled
is_collection_enabled-run requests depth h fits left =
    let nested = is_gc_enabled-nested requests depth h fits in
    elim (Bool-cases (is_gc_enabled (run requests depth))) [
      | inl e ↦ absurd (left (nested.0 e))
      | inr e ↦ (e, refl)
    ]
