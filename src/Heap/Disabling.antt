-- ===== src/Heap/Disabling.antt =====
-- Collections that are disabled and enabled again, in nested regions (vmkit/src/mm.rs).
use vmkit_core.Prelude.{ℕ, suc, ◌+◌, ◌-◌, ◌<◌, ◌≡◌, arith, true, List, [], ◌∷◌}
use mathlib.Core.Logic.{◌↔◌}
use vmkit_core.Prelude.Words.{word_mod}
use vmkit_core.Heap.{disable_gc, enable_gc, is_gc_enabled}

pub data Request : Type 0 where
  disable enable : Request

-- `gc_disabled_depth` after the requests of all threads, in their order.
pub run : List Request → ℕ → ℕ
run [] depth = depth
run (disable ∷ requests) depth = run requests (disable_gc depth)
run (enable ∷ requests) depth = run requests (enable_gc depth)

abbrev pub disables : List Request → ℕ
disables [] = 0
disables (disable ∷ requests) = suc (disables requests)
disables (enable ∷ requests) = disables requests

abbrev pub enables : List Request → ℕ
enables [] = 0
enables (disable ∷ requests) = enables requests
enables (enable ∷ requests) = suc (enables requests)

-- No request to enable comes without an earlier one to disable that it ends.
abbrev pub IsNested : List Request → ℕ → Type 0
IsNested [] depth = Unit
IsNested (disable ∷ requests) depth = IsNested requests (suc depth)
IsNested (enable ∷ requests) depth = (0 < depth) × IsNested requests (depth - 1)

run-nested :
    (requests : List Request) (depth : ℕ)
    → IsNested requests depth
    → depth + disables requests < word_mod
    → run requests depth + enables requests ≡ depth + disables requests
unfolding run disable_gc enable_gc
run-nested [] depth h fits = omega arith
run-nested (disable ∷ requests) depth h fits =
    let e : disable_gc depth ≡ suc depth = omega arith in
    rw e (omega (arith, run-nested requests (suc depth) h (omega arith)))
run-nested (enable ∷ requests) depth h fits =
    let e : enable_gc depth ≡ depth - 1 = omega (arith, h.0) in
    rw e (omega (arith, h.0, run-nested requests (depth - 1) h.1 (omega (arith, h.0))))

-- After requests that are nested in this way, where the depth before and the requests to disable are
-- together below 2^64, collections are enabled exactly when every region has been ended.
pub is_gc_enabled-nested :
    (requests : List Request) (depth : ℕ)
    → IsNested requests depth
    → depth + disables requests < word_mod
    → (is_gc_enabled (run requests depth) ≡ true) ↔ (enables requests ≡ depth + disables requests)
unfolding is_gc_enabled
is_gc_enabled-nested requests depth h fits =
    let sum = run-nested requests depth h fits in
    (λ e. ground (arith, sum, e), λ q. ground (arith, sum, q))
