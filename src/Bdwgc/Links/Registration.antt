-- ===== src/Bdwgc/Links/Registration.antt =====
-- Registered links, as a set.
use vmkit_core.Prelude.{
  ℕ, ◌≡◌, ◌∙◌, refl, inl, inr, true, not, ◌&&◌, ◌||◌, if◌then◌else◌, List, none, some, arith,
  Bool-cases,
}
use vmkit_core.Prelude.Sets.{member, insert, remove, member-insert, member-remove}
use vmkit_core.Memory.{Mem}
use vmkit_core.Object.{hashcode}
use vmkit_core.Object.Hashing.Null.{hashcode-null}
use vmkit_core.Bdwgc.Marking.{Collector, bdwgc_vm}
use vmkit_core.Bdwgc.Allocation.{gc_base}
use vmkit_core.Bdwgc.Links.{
  DLink, same_link, gc_general_register_disappearing_link, gc_register_disappearing_link,
  gc_unregister_disappearing_link,
}
use vmkit_core.Bdwgc.Links.Weak.{same_link-Decides}

module _ (c : Collector) where
  -- Where the object can be hashed, registration returns 1 if the link was registered for this
  -- object before and 0 otherwise; the link is registered afterwards, and no other one changes.
  pub gc_general_register_disappearing_link_lem :
      (link obj : ℕ) (m : Mem) (links : List DLink) (hash : ℕ) (m' : Mem)
      → hashcode (bdwgc_vm c) m obj ≡ some (hash, m')
      → let d : DLink = record { object = obj; link = link } in
        (links' : List DLink) × (gc_general_register_disappearing_link c link obj m links
          ≡ some ((if member same_link links d then 1 else 0), m', links'))
        × ((y : DLink) → member same_link links' y ≡ same_link y d || member same_link links y)
  unfolding gc_general_register_disappearing_link insert
  gc_general_register_disappearing_link_lem link obj m links hash m' h =
      let d : DLink = record { object = obj; link = link } in
      (
        (insert same_link links d).1,
        elim (Bool-cases (member same_link links d)) [
          | inl b ↦ rw (h, b) refl
          | inr b ↦ rw (h, b) refl
        ],
        member-insert same_link same_link-Decides links d,
      )

  -- A link that is registered and then unregistered is registered no more, and no other one
  -- changes; the object can be hashed both times.
  pub gc_unregister_disappearing_link-gc_register_disappearing_link :
      (link : ℕ) (m : Mem) (links : List DLink) (hash : ℕ) (m' : Mem) (again : ℕ) (m'' : Mem)
      → hashcode (bdwgc_vm c) m (gc_base c link) ≡ some (hash, m')
      → hashcode (bdwgc_vm c) m' (gc_base c link) ≡ some (again, m'')
      → let d : DLink = record { object = gc_base c link; link = link } in
        (links' : List DLink) × (links'' : List DLink) × (gc_register_disappearing_link c link m
            links
          ≡ some (m', links'))
        × (gc_unregister_disappearing_link c link m' links' ≡ some (m'', links''))
        × (member same_link links' d ≡ true)
        × ((y : DLink)
            → member same_link links'' y ≡ not (same_link y d) && member same_link links y)
  unfolding gc_register_disappearing_link gc_unregister_disappearing_link
  gc_unregister_disappearing_link-gc_register_disappearing_link link m links hash m' again m'' h g =
      let d : DLink = record { object = gc_base c link; link = link } in
      let (links', e, i) =
        gc_general_register_disappearing_link_lem link (gc_base c link) m links hash m' h in
      (
        links',
        remove same_link links' d,
        rw e refl,
        rw g refl,
        i d ∙ rw (same_link-Decides.reflexive d) refl,
        λ y. member-remove same_link same_link-Decides links' d y ∙ ground (arith, i y),
      )

  -- With address-based hashing, registering a link outside the heap panics.
  pub gc_register_disappearing_link-outside :
      (link : ℕ) (m : Mem) (links : List DLink)
      → gc_base c link ≡ 0
      → c.address_based_hashing ≡ true
      → gc_register_disappearing_link c link m links ≡ none
  unfolding gc_register_disappearing_link gc_general_register_disappearing_link
  gc_register_disappearing_link-outside link m links h abh =
      rw (h, hashcode-null (bdwgc_vm c) m abh) refl
