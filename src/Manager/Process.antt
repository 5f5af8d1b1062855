-- ===== src/Manager/Process.antt =====
-- Registration and the removal of terminated threads.
use vmkit_core.Prelude.{
  ℕ, zero, suc, ◌+◌, ◌≤◌, ◌<◌, ◌≡◌, ◌≢◌, ◌∙◌, inl, inr, refl, List, [], ◌∷◌, none, some, arith,
  get_elem?, length, Option-cases, length-set, subst,
}
use vmkit_core.Thread.{terminated}
use vmkit_core.Thread.Parked.{parked_scope}
use vmkit_core.Manager.{
  System, Event, Passage, put, register, find_terminated, remove_terminated, process_loop,
  process_about_to_terminate, add_thread, join_all,
}
use vmkit_core.Manager.Slots.{
  IsWellFormed, IsNew, put-IsWellFormed, Keeps, register-IsWellFormed, register-length, register-at,
  find_terminated-slot, remove_terminated-Keeps,
}

process_loop-Keeps :
    (fuel : ℕ) (sys sys' : System)
    → IsWellFormed sys
    → process_loop fuel sys ≡ some sys'
    → Keeps sys sys'
unfolding process_loop
process_loop-Keeps zero sys sys' w e = ground (arith, w)
process_loop-Keeps (suc fuel) sys sys' w e =
    let n = length sys.manager.about_to_terminate in
    elim (Option-cases (find_terminated sys n 0)) [
      | inl o ↦ ground (arith, o)
      | inr (none, o) ↦ ground (arith, o)
      | inr (some (j, t), o) ↦ elim (Option-cases (remove_terminated sys j t)) [
        | inl r ↦ ground (arith, o, r)
        | inr (u, r) ↦
            let k = remove_terminated-Keeps sys u j j t w (find_terminated-slot sys n 0 j t o) r in
            let l = process_loop-Keeps fuel u sys' k.formed (ground (arith, o, r)) in
            record {
              formed = l.formed;
              count = l.count ∙ k.count;
              same_store = l.same_store ∙ k.same_store;
              older = λ i v h. k.older i v (l.older i v h);
            }
      ]
    ]

-- In a well-formed system, `process_about_to_terminate`, when it does not panic, leaves a
-- well-formed system with as many slots, the same fields of each thread, and no thread in a slot
-- where it was not before.
pub process_about_to_terminate-Keeps :
    (sys sys' : System)
    → IsWellFormed sys
    → process_about_to_terminate sys ≡ some sys'
    → Keeps sys sys'
unfolding process_about_to_terminate
process_about_to_terminate-Keeps sys sys' w e =
    process_loop-Keeps (length sys.manager.about_to_terminate) sys sys' w e

-- A well-formed system of at least `n` slots, with one for the thread, whose number it knows.
abbrev pub Registered : ℕ → ℕ → System → Type 0
Registered t n sys =
    IsWellFormed sys
    × (n ≤ length sys.manager.threads)
    × (i : ℕ) × (get_elem? sys.manager.threads i ≡ some (some t))
    × ((sys.store t).index_in_manager ≡ i)

-- When a thread that is in no slot is added to a well-formed system, and no panic occurs, the
-- system stays well-formed, does not lose a slot, and has a slot for the thread, whose number the
-- thread knows.
pub add_thread-IsWellFormed :
    (p : Passage) (c : ℕ) (sys sys' : System) (t : ℕ)
    → IsWellFormed sys
    → IsNew sys t
    → add_thread p c sys t ≡ some sys'
    → Registered t (length sys.manager.threads) sys'
unfolding add_thread
add_thread-IsWellFormed p c sys sys' t w n e =
    elim (Option-cases (process_about_to_terminate sys)) [
      | inl o ↦ absurd (ground (arith, e, o))
      | inr (u, o) ↦
          let r = register u t in
          elim (Option-cases (parked_scope p.adapters p.sp p.waits p.meanwhile (r.store c))) [
            | inl x ↦ absurd (ground (arith, e, o, x))
            | inr (v, x) ↦
                let k = process_about_to_terminate-Keeps sys u w o in
                let index = (r.store c).index_in_manager in
                let v' = record v { index_in_manager = index } in
                let q : record r { store = put r.store c v' } ≡ sys' = ground (arith, e, o, x) in
                let f = register-IsWellFormed u t k.formed (λ i h. n i (k.older i t h)) in
                let a = register-at u t k.formed in
                let g = put-IsWellFormed r c v' refl f in
                subst (Registered t (length sys.manager.threads)) q
                  (g, omega (arith, register-length u t, k.count), a.0, a.1, g.slots a.0 t a.1)
          ]
    ]

find_terminated-none :
    (sys : System) (n i : ℕ)
    → ((j : ℕ)
        → j < i + n
        → (t : ℕ) × (get_elem? sys.manager.threads j ≡ some (some t))
          × ((sys.store t).exec_status ≢ terminated))
    → find_terminated sys n i ≡ some none
unfolding find_terminated
find_terminated-none sys zero i h = refl
find_terminated-none sys (suc n) i h =
    ground
      (arith, h i (omega arith), find_terminated-none sys n (i + 1) (λ j lt. h j (omega arith)))

process_loop-unchanged :
    (fuel : ℕ) (sys : System)
    → find_terminated sys (length sys.manager.about_to_terminate) 0 ≡ some none
    → process_loop fuel sys ≡ some sys
unfolding process_loop
process_loop-unchanged zero sys e = refl
process_loop-unchanged (suc fuel) sys e = ground (arith, e)

-- The search looks at the first slots, not at the threads about to terminate: when the first
-- slots, one for each entry of `about_to_terminate`, hold threads that have not terminated,
-- `process_about_to_terminate` removes nothing, whatever the entries are.
pub process_about_to_terminate-unchanged :
    (sys : System)
    → ((j : ℕ)
        → j < length sys.manager.about_to_terminate
        → (t : ℕ) × (get_elem? sys.manager.threads j ≡ some (some t))
          × ((sys.store t).exec_status ≢ terminated))
    → process_about_to_terminate sys ≡ some sys
unfolding process_about_to_terminate
process_about_to_terminate-unchanged sys h =
    process_loop-unchanged (length sys.manager.about_to_terminate) sys (
      find_terminated-none sys (length sys.manager.about_to_terminate) 0
        (λ j lt. h j (omega arith)))

remove_terminated-length :
    (sys sys' : System) (i t : ℕ)
    → remove_terminated sys i t ≡ some sys'
    → length sys'.manager.threads ≡ length sys.manager.threads
unfolding remove_terminated
remove_terminated-length sys sys' i t e =
    ground (arith, e, length-set sys.manager.threads (sys.store t).index_in_manager none)

process_loop-length :
    (fuel : ℕ) (sys sys' : System)
    → process_loop fuel sys ≡ some sys'
    → length sys'.manager.threads ≡ length sys.manager.threads
unfolding process_loop
process_loop-length zero sys sys' e = ground arith
process_loop-length (suc fuel) sys sys' e =
    elim (Option-cases (find_terminated sys (length sys.manager.about_to_terminate) 0)) [
      | inl o ↦ ground (arith, o)
      | inr (none, o) ↦ ground (arith, o)
      | inr (some (j, t), o) ↦ elim (Option-cases (remove_terminated sys j t)) [
        | inl r ↦ ground (arith, o, r)
        | inr (u, r) ↦
            ground
              (arith, o, r, remove_terminated-length sys u j t r, process_loop-length fuel u sys')
      ]
    ]

-- What happens in a wait never makes the vector of slots shorter.
abbrev pub NoneShrinks : List Event → Type 0
NoneShrinks [] = Unit {0}
NoneShrinks (w ∷ ws) =
    ((sys : System) → length sys.manager.threads ≤ length (w sys).manager.threads) × NoneShrinks ws

-- `join_all` never shortens the vector of slots, whose end it waits for: if a thread was registered
-- and nothing that happens in its waits shortens the vector, it has not returned after any number
-- of waits.
pub join_all-waits :
    (ws : List Event) (sys : System)
    → 0 < length sys.manager.threads
    → NoneShrinks ws
    → join_all ws sys ≡ none
unfolding join_all process_about_to_terminate
join_all-waits [] sys h g = ground arith
join_all-waits (w ∷ ws) sys h g = elim (Option-cases (process_about_to_terminate sys)) [
  | inl o ↦ ground (arith, o)
  | inr (u, o) ↦
      let l = process_loop-length (length sys.manager.about_to_terminate) sys u o in
      ground (arith, o, join_all-waits ws (w u) (omega (arith, g.0 u, l)) g.1)
]
