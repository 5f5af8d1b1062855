-- ===== src/Bdwgc/Startup.antt =====
-- `GC_init` of vmkit/src/bdwgc_shim.rs, and the state that it makes. The options of mmtk, what the
-- environment says of them, and mmtk's own start are parameters. `none` is a panic or an exit.
pub mod Once
use vmkit_core.Prelude.{
  ℕ, Bool, true, false, if◌then◌else◌, ◌==◌, List, [], Option, none, some, ◌>>=◌,
}
use vmkit_core.Roots.{Range}
use vmkit_core.Manager.Lifecycle.{Plan, Os, Process}
use vmkit_core.Bdwgc.Registry.{Table, ObjKind, new_table, gc_max_mark_procs, maxobjkinds}
use vmkit_core.Bdwgc.Links.{DLink}
use vmkit_core.Bdwgc.Threads.{gc_register_my_thread}

pub data PlanSelector : Type 0 where
  immix mark_sweep : PlanSelector
  other_plan : ℕ → PlanSelector

pub data GcTriggerSelector : Type 0 where
  default_trigger : GcTriggerSelector
  fixed_heap_size : ℕ → GcTriggerSelector

-- The options of `MMTKBuilder` that the code sets.
pub record Builder : Type 0 where
  pub plan : PlanSelector
  pub threads : ℕ
  pub gc_trigger : GcTriggerSelector

-- `BDWGC`, less `vmkit`.
pub record Bdwgc : Type 0 where
  pub roots : List Range
  pub disappearing_links : List DLink
  pub mark_procs : Table ℕ
  pub obj_kinds : Table ObjKind

-- The static variables, with the threads. `init_done` is the state of `INIT`, and
-- `collection_initialized` says that mmtk's `initialize_collection` ran.
pub record Shim : Type 0 where
  pub init_done : Bool
  pub builder : Builder
  pub gc_use_entire_heap : ℕ
  pub gc_dont_precollect : ℕ
  pub oom_func : Option ℕ
  pub bdwgc_vm : Option Bdwgc
  pub process : Process
  pub collection_initialized : Bool

-- The initial value of `BUILDER`, from the options that the environment sets.
unfoldable pub new_builder : Builder → Builder
new_builder from_env = elim from_env.plan [
  | immix ↦ from_env
  | mark_sweep ↦ from_env
  | other_plan n ↦ record from_env { plan = immix }
]

-- The new `BDWGC`.
pub new_bdwgc : Bdwgc
new_bdwgc = record {
  roots = [];
  disappearing_links = [];
  mark_procs = new_table gc_max_mark_procs;
  obj_kinds = new_table maxobjkinds;
}

-- `half_of_memory` is the number that the code makes from the total memory, half of it; the thread
-- that is registered is `t`, with the number `id`.
module _ (plan : Plan) (os : Os) (half_of_memory : ℕ) (t id : ℕ) where
  -- The closure that is called once.
  initialize : Shim → Option Shim
  unfolding new_bdwgc
  initialize s =
      let builder =
        if s.gc_use_entire_heap == 0
        then s.builder
        else record s.builder { gc_trigger = fixed_heap_size half_of_memory } in
      elim s.bdwgc_vm [
        | some vm ↦ none
        | none ↦ do
          p ← gc_register_my_thread plan os t id s.process
          some (record s {
            init_done = true;
            builder = builder;
            bdwgc_vm = some new_bdwgc;
            process = p;
            collection_initialized = true;
          })
      ]

  pub gc_init : Shim → Option Shim
  unfolding initialize
  gc_init s = if s.init_done then some s else initialize s

pub gc_is_init_called : Shim → ℕ
gc_is_init_called s = if s.init_done then 1 else 0
