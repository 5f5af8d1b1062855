-- ===== src/Bdwgc/Settings.antt =====
-- The options and the statistics of vmkit/src/bdwgc_shim.rs: what is set and what is read back, most
-- of which the code ignores. The statistics come from mmtk.
use vmkit_core.Prelude.{ℕ, ◌+◌, ◌≡◌, refl, List, [], ◌∷◌, Option, some, if◌then◌else◌}
use vmkit_core.Prelude.Words.{wrap, wrapping_sub}
use vmkit_core.Heap.{disable_gc, enable_gc, is_gc_enabled}
use vmkit_core.Bdwgc.Startup.{Shim}

-- The options whose functions `GC_set_*` do nothing and whose functions `GC_get_*` give a constant.
-- Some have only one of the two; the time limit as a structure is read as two zeros.
pub data Ignored : Type 0 where
  find_leak all_interior_pointers finalize_on_demand full_freq non_gc_bytes no_dls : Ignored
  free_space_divisor max_retries time_limit time_limit_tv allocd_bytes_per_finalizer : Ignored
  full_gc_total_time stopped_mark_total_time avg_stopped_mark_time_ns : Ignored
  pages_executable min_bytes_allocd max_prior_attempts : Ignored

pub set_ignored : Ignored → ℕ → Shim → Shim
set_ignored option value s = s

unfoldable pub get_ignored : Ignored → ℕ
get_ignored Ignored.all_interior_pointers = 1
get_ignored _ = 0

-- `GC_set_markers_count` and `GC_get_parallel`.
pub gc_set_markers_count : ℕ → Shim → Shim
gc_set_markers_count count s = record s { builder = record s.builder { threads = count } }

pub gc_get_parallel : Shim → ℕ
gc_get_parallel s = s.builder.threads

-- A function is a number; reading one that was never set is a panic.
pub gc_set_oom_fn : ℕ → Shim → Shim
gc_set_oom_fn func s = record s { oom_func = some func }

pub gc_get_oom_fn : Shim → Option ℕ
gc_get_oom_fn s = s.oom_func

pub gc_set_dont_precollect : ℕ → Shim → Shim
gc_set_dont_precollect value s = record s { gc_dont_precollect = value }

pub gc_get_dont_precollect : Shim → ℕ
gc_get_dont_precollect s = s.gc_dont_precollect

-- A call of one of the functions that set an option.
pub data Call : Type 0 where
  ignored : Ignored → ℕ → Call
  markers_count : ℕ → Call
  oom_fn : ℕ → Call
  dont_precollect : ℕ → Call

pub set_all : List Call → Shim → Shim
unfolding set_ignored gc_set_markers_count gc_set_oom_fn gc_set_dont_precollect
set_all [] s = s
set_all (ignored option value ∷ calls) s = set_all calls (set_ignored option value s)
set_all (markers_count count ∷ calls) s = set_all calls (gc_set_markers_count count s)
set_all (oom_fn func ∷ calls) s = set_all calls (gc_set_oom_fn func s)
set_all (dont_precollect value ∷ calls) s = set_all calls (gc_set_dont_precollect value s)

-- The last value that the calls give to each option, or the one it had.
pub last_markers : List Call → ℕ → ℕ
last_markers [] x = x
last_markers (markers_count count ∷ calls) x = last_markers calls count
last_markers (_ ∷ calls) x = last_markers calls x

pub last_oom : List Call → Option ℕ → Option ℕ
last_oom [] x = x
last_oom (oom_fn func ∷ calls) x = last_oom calls (some func)
last_oom (_ ∷ calls) x = last_oom calls x

pub last_precollect : List Call → ℕ → ℕ
last_precollect [] x = x
last_precollect (dont_precollect value ∷ calls) x = last_precollect calls value
last_precollect (_ ∷ calls) x = last_precollect calls x

-- After any sequence of calls, each of the three options that have a state is read as the last value
-- that was set, or as before if none was; nothing else of the state has changed.
pub set_all_lem :
    (calls : List Call) (s : Shim)
    → set_all calls s ≡ record s {
      builder = record s.builder { threads = last_markers calls (gc_get_parallel s) };
      oom_func = last_oom calls (gc_get_oom_fn s);
      gc_dont_precollect = last_precollect calls (gc_get_dont_precollect s);
    }
unfolding set_all last_markers last_oom last_precollect gc_get_parallel gc_get_oom_fn
    gc_get_dont_precollect
set_all_lem [] s = refl
set_all_lem (ignored option value ∷ calls) s = set_all_lem calls s
set_all_lem (markers_count count ∷ calls) s = set_all_lem calls (gc_set_markers_count count s)
set_all_lem (oom_fn func ∷ calls) s = set_all_lem calls (gc_set_oom_fn func s)
set_all_lem (dont_precollect value ∷ calls) s = set_all_lem calls (gc_set_dont_precollect value s)

-- mmtk's accounts, and the bytes that were in use in each space after the last collection.
pub record Statistics : Type 0 where
  pub used_bytes : ℕ
  pub free_bytes : ℕ
  pub total_bytes : ℕ
  pub live_bytes_in_last_gc : List ℕ

unfoldable pub gc_get_heap_size : Statistics → ℕ
gc_get_heap_size mmtk = mmtk.used_bytes

unfoldable pub gc_get_free_bytes : Statistics → ℕ
gc_get_free_bytes mmtk = mmtk.free_bytes

unfoldable pub gc_get_unmapped_bytes : Statistics → ℕ
gc_get_unmapped_bytes mmtk = wrapping_sub mmtk.total_bytes mmtk.used_bytes

-- The fold starts at 0 and adds each space.
pub fold_bytes : ℕ → List ℕ → ℕ
fold_bytes x [] = x
fold_bytes x (used ∷ spaces) = fold_bytes (wrap (used + x)) spaces

unfoldable pub gc_get_bytes_since_gc : Statistics → ℕ
unfolding fold_bytes
gc_get_bytes_since_gc mmtk = fold_bytes 0 mmtk.live_bytes_in_last_gc

unfoldable pub gc_get_total_bytes : Statistics → ℕ
gc_get_total_bytes mmtk = mmtk.total_bytes

-- `GC_disable`, `GC_enable` and `GC_is_enabled`, on the depth at which collections are disabled.
unfoldable pub gc_disable : ℕ → ℕ
gc_disable depth = disable_gc depth

unfoldable pub gc_enable : ℕ → ℕ
gc_enable depth = enable_gc depth

unfoldable pub gc_is_enabled : ℕ → ℕ
gc_is_enabled depth = if is_gc_enabled depth then 1 else 0
