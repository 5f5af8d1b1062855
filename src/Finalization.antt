-- ===== src/Finalization.antt =====
-- vmkit/src/object_model/finalization.rs: registered and pending finalizers. A callback is known
-- by a number; an object is its address, and 0 is `VMKitObject::NULL`. A vector that is popped has
-- its last element in front.
pub mod Partition
mod Tests
use vmkit_core.Prelude.{
  ℕ, ◌+◌, Bool, true, false, if◌then◌else◌, List, [], ◌∷◌, ◌++◌, Option, none, some, ◌==◌,
}

pub data FinalizerKind : Type 0 where
  finalized : FinalizerKind
  unordered drop : ℕ → FinalizerKind

pub record Finalizer : Type 0 where
  pub object : ℕ
  pub finalizer : FinalizerKind

-- What a finalizer calls: its callback, and the object that the callback gets.
pub data Call : Type 0 where
  on_object : ℕ → ℕ → Call
  alone : ℕ → Call

pub run : Finalizer → List Call
run f = elim f.finalizer [
  | FinalizerKind.finalized ↦ []
  | FinalizerKind.unordered c ↦ on_object c f.object ∷ []
  | FinalizerKind.drop c ↦ alone c ∷ []
]

-- What the collector of mmtk says of an object: whether it is reachable, where it was forwarded,
-- and where `trace_object` of the tracer puts it.
pub record Tracer : Type 0 where
  pub is_reachable : ℕ → Bool
  pub get_forwarded_object : ℕ → Option ℕ
  pub trace_object : ℕ → ℕ

abbrev pub unwrap_or : Option ℕ → ℕ → ℕ
unwrap_or none o = o
unwrap_or (some n) o = n

-- The registered finalizers that `retain_mut` keeps, the pending ones, and `closure_required`.
-- Tracing revives what the object refers to, so that it may make later objects reachable: the
-- tracer is the one after the objects traced before.
pub process :
    (ℕ → Tracer → Tracer)
    → Tracer
    → List Finalizer
    → List Finalizer
    → List Finalizer × List Finalizer × Bool
process after tracer [] pending = ([], pending, false)
process after tracer (f ∷ fs) pending =
    let kept = process after tracer fs pending in
    let moved =
      process after (after f.object tracer) fs
        (record f { object = tracer.trace_object f.object } ∷ pending) in
    if f.object == 0
    then kept
    else (if tracer.is_reachable f.object
        then (
          record f { object = unwrap_or (tracer.get_forwarded_object f.object) f.object } ∷ kept.0,
          kept.1,
          kept.2,
        )
        else (moved.0, moved.1, true))

unfoldable pub get_finalized_object : List Finalizer → Option Finalizer × List Finalizer
get_finalized_object [] = (none, [])
get_finalized_object (f ∷ fs) = (some f, fs)

-- `register_finalizer`: the new one comes last.
unfoldable pub register_finalizer : List Finalizer → ℕ → ℕ → List Finalizer
register_finalizer registered object callback =
    registered ++ record { object = object; finalizer = FinalizerKind.unordered callback } ∷ []

-- `run_finalizers`, for callbacks that neither register nor process finalizers: the calls in their
-- order, and the count.
pub run_finalizers : List Finalizer → List Call × ℕ
unfolding run
run_finalizers [] = ([], 0)
run_finalizers (f ∷ fs) = let (calls, count) = run_finalizers fs in (run f ++ calls, count + 1)
