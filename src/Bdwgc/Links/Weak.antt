-- ===== src/Bdwgc/Links/Weak.antt =====
-- Disappearing links: their registration, and what a collection does with them.
use vmkit_core.Prelude.{
  ℕ, zero, suc, ◌+◌, ◌≤◌, ◌<◌, ◌≡◌, ◌⊎◌, inl, inr, refl, Bool, true, false, ◌&&◌, List, [], ◌∷◌,
  arith, Bool-cases,
}
use vmkit_core.Prelude.Sets.{Decides, member}
use vmkit_core.Memory.{Mem, load_bytes, store_bytes, load_word, store_word, store_bytes-outside}
use vmkit_core.Bdwgc.Links.{DLink, same_link, retain_links}

pub same_link-Decides : Decides same_link
same_link-Decides = record { equal = λ x y h. ground (arith, h); reflexive = λ x. ground arith }

-- A store of 0 writes zeros and no other byte.
store_bytes-zero :
    (n : ℕ) (m : Mem) (a x : ℕ) → (a ≤ x) × (x < a + n) ⊎ (m x ≡ 0) → store_bytes n m a 0 x ≡ 0
unfolding store_bytes
store_bytes-zero zero m a x h = ground arith
store_bytes-zero (suc n) m a x h = ground (arith, store_bytes-zero n m (a + 1) x)

load_bytes-zero :
    (n : ℕ) (m : Mem) (a : ℕ) → ((i : ℕ) → i < n → m (a + i) ≡ 0) → load_bytes n m a ≡ 0
unfolding load_bytes
load_bytes-zero zero m a h = refl
load_bytes-zero (suc n) m a h =
    let e : m a ≡ 0 = ground (arith, h 0) in
    omega (arith, e, load_bytes-zero n m (a + 1) (λ i lt. ground (arith, h (i + 1))))

module _ (is_reachable : ℕ → Bool) where
  retain_links-keeps_zero :
      (m : Mem) (links : List DLink) (x : ℕ) → m x ≡ 0 → (retain_links is_reachable m links).0 x ≡ 0
  unfolding retain_links
  retain_links-keeps_zero m [] x h = h
  retain_links-keeps_zero m (l ∷ ls) x h = elim (Bool-cases (is_reachable l.object)) [
    | inl b ↦ ground (arith, b, retain_links-keeps_zero m ls x h)
    | inr b ↦
        let z = store_bytes-zero 8 m l.link x (inr h) in
        ground (arith, b, retain_links-keeps_zero (store_word m l.link 0) ls x z)
  ]

  retain_links-zero :
      (m : Mem) (links : List DLink) (l : DLink) (i : ℕ)
      → member same_link links l ≡ true
      → is_reachable l.object ≡ false
      → i < 8
      → (retain_links is_reachable m links).0 (l.link + i) ≡ 0
  unfolding retain_links
  retain_links-zero m [] l i h d lt = ground (arith, h)
  retain_links-zero m (k ∷ ks) l i h d lt = elim (Bool-cases (same_link l k)) [
    | inl e ↦
        let q : l ≡ k = same_link-Decides.equal l k e in
        let z : store_word m k.link 0 (l.link + i) ≡ 0 =
          rw q (store_bytes-zero 8 m k.link (k.link + i) (inl (omega arith, omega arith))) in
        let dk : is_reachable k.object ≡ false = rw q at d in
        ground (arith, dk, retain_links-keeps_zero (store_word m k.link 0) ks (l.link + i) z)
    | inr n ↦
        let hk : member same_link ks l ≡ true = ground (arith, h, n) in
        elim (Bool-cases (is_reachable k.object)) [
          | inl b ↦ ground (arith, b, retain_links-zero m ks l i hk d lt)
          | inr b ↦ ground (arith, b, retain_links-zero (store_word m k.link 0) ks l i hk d lt)
        ]
  ]

  retain_links-member :
      (m : Mem) (links : List DLink) (l : DLink)
      → member same_link (retain_links is_reachable m links).1 l
        ≡ member same_link links l && is_reachable l.object
  unfolding retain_links
  retain_links-member m [] l = refl
  retain_links-member m (k ∷ ks) l = elim (Bool-cases (same_link l k)) [
    | inl e ↦
        let q : l ≡ k = same_link-Decides.equal l k e in
        elim (Bool-cases (is_reachable k.object)) [
          | inl b ↦
              let bl : is_reachable l.object ≡ true = rw q b in
              ground (arith, e, b, bl, retain_links-member m ks l)
          | inr b ↦
              let bl : is_reachable l.object ≡ false = rw q b in
              ground (arith, e, b, bl, retain_links-member (store_word m k.link 0) ks l)
        ]
    | inr n ↦ elim (Bool-cases (is_reachable k.object)) [
      | inl b ↦ ground (arith, n, b, retain_links-member m ks l)
      | inr b ↦ ground (arith, n, b, retain_links-member (store_word m k.link 0) ks l)
    ]
  ]

  retain_links-outside :
      (m : Mem) (links : List DLink) (x : ℕ)
      → ((l : DLink)
          → member same_link links l ≡ true
          → is_reachable l.object ≡ false
          → (x < l.link) ⊎ (l.link + 8 ≤ x))
      → (retain_links is_reachable m links).0 x ≡ m x
  unfolding retain_links
  retain_links-outside m [] x h = refl
  retain_links-outside m (k ∷ ks) x h =
      let hk : (l : DLink)
          → member same_link ks l ≡ true
          → is_reachable l.object ≡ false
          → (x < l.link) ⊎ (l.link + 8 ≤ x) =
        λ l w d. elim (Bool-cases (same_link l k)) [
          | inl e ↦ h l (ground (arith, e)) d
          | inr e ↦ h l (ground (arith, e, w)) d
        ] in
      elim (Bool-cases (is_reachable k.object)) [
        | inl b ↦ ground (arith, b, retain_links-outside m ks x hk)
        | inr b ↦
            let self : member same_link (k ∷ ks) k ≡ true =
              ground (arith, same_link-Decides.reflexive k) in
            let o = store_bytes-outside 8 m k.link 0 x (h k self b) in
            ground (arith, b, o, retain_links-outside (store_word m k.link 0) ks x hk)
      ]

  -- A collection keeps exactly the links of reachable objects, stores null in the word of each
  -- other link, also where the words of several links overlap, and changes no other byte: the order
  -- in which the set is iterated makes no difference.
  pub retain_links_lem :
      (m : Mem) (links : List DLink)
      → let r = retain_links is_reachable m links in
        ((l : DLink) → member same_link r.1 l ≡ member same_link links l && is_reachable l.object)
        × ((l : DLink)
            → member same_link links l ≡ true
            → is_reachable l.object ≡ false
            → load_word r.0 l.link ≡ 0)
        × ((x : ℕ)
            → ((l : DLink)
                → member same_link links l ≡ true
                → is_reachable l.object ≡ false
                → (x < l.link) ⊎ (l.link + 8 ≤ x))
            → r.0 x ≡ m x)
  retain_links_lem m links = (
    retain_links-member m links,
    λ l h d.
        load_bytes-zero 8 (retain_links is_reachable m links).0 l.link
          (λ i lt. retain_links-zero m links l i h d lt),
    retain_links-outside m links,
  )
