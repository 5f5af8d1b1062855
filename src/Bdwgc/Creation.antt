-- ===== src/Bdwgc/Creation.antt =====
-- `GC_pthread_create` of vmkit/src/bdwgc_shim.rs: the steps of the thread that creates another one,
-- and of the closure that the new thread runs, in every interleaving.
use vmkit_core.Prelude.{ℕ, ◌+◌, ◌≤◌, ◌≡◌, ◌≢◌, refl, arith}

pub data Creator : Type 0 where
  before_start before_wait in_wait returned : Creator

pub data Created : Type 0 where
  not_started before_barrier at_barrier before_store after_store : Created

-- `arrived` counts the calls of `wait` of the barrier, and `thread_ptr` is the word that the handle
-- is stored to.
pub record World : Type 0 where
  pub creator : Creator
  pub created : Created
  pub arrived : ℕ
  pub thread_ptr : ℕ

-- A call of `wait` ends once as many were made as the barrier was made for.
pub data Step (parties handle : ℕ) : World → World → Type 0 where
  start :
      (w : World)
      → w.creator ≡ before_start
      → Step parties handle w (record w { creator = before_wait; created = before_barrier })
  creator_arrives :
      (w : World)
      → w.creator ≡ before_wait
      → Step parties handle w (record w { creator = in_wait; arrived = w.arrived + 1 })
  creator_leaves :
      (w : World)
      → w.creator ≡ in_wait
      → parties ≤ w.arrived
      → Step parties handle w (record w { creator = returned })
  created_arrives :
      (w : World)
      → w.created ≡ before_barrier
      → Step parties handle w (record w { created = at_barrier; arrived = w.arrived + 1 })
  created_leaves :
      (w : World)
      → w.created ≡ at_barrier
      → parties ≤ w.arrived
      → Step parties handle w (record w { created = before_store })
  created_stores :
      (w : World)
      → w.created ≡ before_store
      → Step parties handle w (record w { created = after_store; thread_ptr = handle })

pub data Reach (parties handle old : ℕ) : World → Type 0 where
  here :
      Reach parties handle old
        (record { creator = before_start; created = not_started; arrived = 0; thread_ptr = old })
  next :
      {v w : World}
      → Reach parties handle old v
      → Step parties handle v w
      → Reach parties handle old w

-- What the word holds, by how far the new thread is.
abbrev pub IsStored : (handle old : ℕ) → World → Type 0
IsStored handle old w =
    ((w.created ≡ after_store) → w.thread_ptr ≡ handle)
    × ((w.created ≢ after_store) → w.thread_ptr ≡ old)
    × ((w.creator ≡ before_start) → w.created ≡ not_started)

Step-IsStored :
    {parties handle old : ℕ} {v w : World}
    → Step parties handle v w
    → IsStored handle old v
    → IsStored handle old w
Step-IsStored (start v h) (a, b, c) =
    (λ q. ground arith, λ q. ground (arith, h, b), λ q. ground arith)
Step-IsStored (creator_arrives v h) (a, b, c) = (a, b, λ q. ground arith)
Step-IsStored (creator_leaves v h g) (a, b, c) = (a, b, λ q. ground arith)
Step-IsStored (created_arrives v h) (a, b, c) =
    (λ q. ground arith, λ q. ground (arith, h, b), λ q. ground (arith, c, h))
Step-IsStored (created_leaves v h g) (a, b, c) =
    (λ q. ground arith, λ q. ground (arith, h, b), λ q. ground (arith, c, h))
Step-IsStored (created_stores v h) (a, b, c) =
    (λ q. refl, λ q. absurd (q refl), λ q. ground (arith, c, h))

-- In every reachable state the word holds the handle of the new thread exactly if this thread has
-- stored it, and the old value before.
pub Reach-IsStored :
    {parties handle old : ℕ} {w : World} → Reach parties handle old w → IsStored handle old w
Reach-IsStored here = (λ q. ground arith, λ q. refl, λ q. refl)
Reach-IsStored (next r s) = Step-IsStored s (Reach-IsStored r)

-- With the barrier for one call of `wait` that the code makes, and also with one for two, the
-- function can return while the word still holds the old value.
pub gc_pthread_create-returned_early :
    (parties handle old : ℕ)
    → parties ≤ 2
    → (w : World) × Reach parties handle old w × (w.creator ≡ returned) × (w.thread_ptr ≡ old)
gc_pthread_create-returned_early parties handle old h =
    let w0 : World = record {
      creator = before_start;
      created = not_started;
      arrived = 0;
      thread_ptr = old;
    } in
    let w1 : World = record w0 { creator = before_wait; created = before_barrier } in
    let w2 : World = record w1 { created = at_barrier; arrived = 1 } in
    let w3 : World = record w2 { creator = in_wait; arrived = 2 } in
    (
      record w3 { creator = returned },
      Reach.next
          (Reach.next (Reach.next (Reach.next here (start w0 refl)) (created_arrives w1 refl))
            (creator_arrives w2 refl))
          (creator_leaves w3 refl h),
      refl,
      refl,
    )
