-- ===== src/Bdwgc/Links.antt =====
-- The root ranges, the disappearing links and the finalizers of bdwgc_shim.rs. A hash set is a list
-- without repetitions, in the order in which it is iterated; `none` is a panic.
pub mod Weak
pub mod Ranges
pub mod Registration
use vmkit_core.Prelude.{
  ℕ, Bool, true, false, not, ◌&&◌, if◌then◌else◌, ◌==◌, List, [], ◌∷◌, Option, none, some, ◌>>=◌,
}
use vmkit_core.Prelude.Sets.{insert, remove}
use vmkit_core.Memory.{Mem, store_word}
use vmkit_core.Object.{hashcode}
use vmkit_core.Roots.{HeapBounds, ConservativeRoots, new, Range, same_range, add_spans}
use vmkit_core.Finalization.{Finalizer, Tracer, process, register_finalizer}
use vmkit_core.Bdwgc.Marking.{Collector, bdwgc_vm}
use vmkit_core.Bdwgc.Allocation.{gc_base}

pub record DLink : Type 0 where
  pub object : ℕ
  pub link : ℕ

abbrev pub same_link : DLink → DLink → Bool
same_link x y = (x.object == y.object) && (x.link == y.link)

pub gc_add_roots : (low high : ℕ) → List Range → List Range
unfolding insert
gc_add_roots low high roots = (insert same_range roots (record { low = low; high = high })).1

unfoldable pub gc_remove_roots : (low high : ℕ) → List Range → List Range
unfolding remove
gc_remove_roots low high roots = remove same_range roots (record { low = low; high = high })

unfoldable pub gc_clear_roots : List Range → List Range
gc_clear_roots roots = []

-- `scan_vm_specific_roots`: what it gives to the factory, for the sections of the dynamic libraries.
module _ (heap : HeapBounds) where
  unfoldable pub scan_vm_specific_roots :
      Mem → (sections roots : List Range) → Option ConservativeRoots
  unfolding add_spans new
  scan_vm_specific_roots m sections roots =
      add_spans heap m sections (new heap 256) >>= λ r. add_spans heap m roots r

module _ (c : Collector) where
  -- The set hashes the object of a link, which may mark it as hashed, before it looks it up.
  pub gc_general_register_disappearing_link :
      (link obj : ℕ) → Mem → List DLink → Option (ℕ × Mem × List DLink)
  unfolding insert
  gc_general_register_disappearing_link link obj m links = do
    (hash, m') ← hashcode (bdwgc_vm c) m obj
    let (added, links') = insert same_link links (record { object = obj; link = link })
    some ((if added then 0 else 1), m', links')

  pub gc_register_disappearing_link : (link : ℕ) → Mem → List DLink → Option (Mem × List DLink)
  unfolding gc_general_register_disappearing_link gc_base
  gc_register_disappearing_link link m links = do
    (known, m', links') ← gc_general_register_disappearing_link link (gc_base c link) m links
    some (m', links')

  pub gc_unregister_disappearing_link : (link : ℕ) → Mem → List DLink → Option (Mem × List DLink)
  unfolding remove gc_base
  gc_unregister_disappearing_link link m links = do
    let base = gc_base c link
    (hash, m') ← hashcode (bdwgc_vm c) m base
    some (m', remove same_link links (record { object = base; link = link }))

  -- `GC_register_finalizer`: the registered finalizers.
  unfoldable pub gc_register_finalizer : (obj callback : ℕ) → List Finalizer → List Finalizer
  unfolding gc_base
  gc_register_finalizer obj callback registered =
      let object = gc_base c obj in
      if object == 0 then registered else register_finalizer registered object callback

-- The other functions that register finalizers, whose bodies are the same.
module _ (c : Collector) where
  unfoldable pub gc_register_finalizer_ignore_self :
      (obj callback : ℕ) → List Finalizer → List Finalizer
  gc_register_finalizer_ignore_self = gc_register_finalizer c

  unfoldable pub gc_register_finalizer_no_order :
      (obj callback : ℕ) → List Finalizer → List Finalizer
  gc_register_finalizer_no_order = gc_register_finalizer c

  unfoldable pub gc_register_finalizer_unreachable :
      (obj callback : ℕ) → List Finalizer → List Finalizer
  gc_register_finalizer_unreachable = gc_register_finalizer c

-- The `retain` of `process_weak_refs`.
pub retain_links : (ℕ → Bool) → Mem → List DLink → Mem × List DLink
retain_links is_reachable m [] = (m, [])
retain_links is_reachable m (l ∷ ls) =
    let kept = retain_links is_reachable m ls in
    let cleared = retain_links is_reachable (store_word m l.link 0) ls in
    if not (is_reachable l.object) then cleared else (kept.0, l ∷ kept.1)

-- `process_weak_refs`: memory, the links, and what the finalizers give.
unfoldable pub process_weak_refs :
    (ℕ → Tracer → Tracer)
    → Tracer
    → Mem
    → List DLink
    → (registered pending : List Finalizer)
    → Mem × List DLink × (List Finalizer × List Finalizer × Bool)
unfolding retain_links
process_weak_refs after tracer m links registered pending =
    let r = retain_links tracer.is_reachable m links in
    (r.0, r.1, process after tracer registered pending)
