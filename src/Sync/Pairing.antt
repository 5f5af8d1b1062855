-- ===== src/Sync/Pairing.antt =====
-- vmkit/src/threading.rs: `begin_pair_with` and the safe versions of `block_unchecked`, which hold the
-- communication locks of two threads. The lock of each thread is found by its number; `none` is a
-- wait for a lock.
use vmkit_core.Prelude.{
  ℕ, ◌+◌, ◌≡◌, ◌≢◌, refl, inl, inr, Bool, if◌then◌else◌, Option, none, some, ◌==◌, ◌>>=◌, arith,
  Bool-cases,
}
use vmkit_core.Sync.{Monitor, lock_mutex, lock_no_handshake, drop_guard}

abbrev pub Locks : Type 0
Locks = ℕ → Monitor

abbrev pub put_lock : Locks → ℕ → Monitor → Locks
put_lock locks t m u = if u == t then m else locks u

pub lock_communication : (me t : ℕ) → Locks → Option Locks
unfolding lock_no_handshake
lock_communication me t locks = do m ← lock_no_handshake me (locks t); some (put_lock locks t m)

pub drop_communication : ℕ → Locks → Locks
unfolding drop_guard
drop_communication t locks = put_lock locks t (drop_guard (locks t))

-- Called by the thread `me`.
pub begin_pair_with : (me self other : ℕ) → Locks → Option Locks
unfolding lock_communication
begin_pair_with me self other locks =
    lock_communication me self locks >>= lock_communication me other

pub begin_pair_with_current : (me self : ℕ) → Locks → Option Locks
unfolding begin_pair_with
begin_pair_with_current me self = begin_pair_with me self me

-- `block_unchecked` is given as what it does to a state and what it returns.
pub safe_block_impl :
    {S R : Type 0}
    → (block_unchecked : Bool → S → Option (R × S)) → (me self : ℕ) → Bool
    → Locks × S
    → Option (R × Locks × S)
unfolding begin_pair_with_current drop_communication
safe_block_impl block_unchecked me self asynchronous (locks, s) = do
  paired ← begin_pair_with_current me self locks
  (result, s') ← block_unchecked asynchronous s
  some (result, drop_communication me (drop_communication self paired), s')

-- The lock is held by nobody.
abbrev pub IsFree : Monitor → Type 0
IsFree m = (m.mutex ≡ 0) × (m.rec_count ≡ 0) × (m.holder ≡ 0)

abbrev held : (me count : ℕ) → Monitor
held me count = record { mutex = me; rec_count = count; holder = me }

lock_no_handshake-free :
    (me : ℕ) (m : Monitor) → me ≢ 0 → IsFree m → lock_no_handshake me m ≡ some (held me 1)
unfolding lock_no_handshake lock_mutex
lock_no_handshake-free me m n f = ground (arith, n, f)

lock_no_handshake-again :
    (me count : ℕ) → lock_no_handshake me (held me count) ≡ some (held me (count + 1))
unfolding lock_no_handshake
lock_no_handshake-again me count = ground arith

lock_no_handshake-taken :
    (me owner count : ℕ) → me ≢ owner → owner ≢ 0 → lock_no_handshake me (held owner count) ≡ none
unfolding lock_no_handshake lock_mutex
lock_no_handshake-taken me owner count n o = ground (arith, n, o)

-- When the locks of both threads are free, a thread that blocks another one, or itself, gets them, and
-- afterwards both are free again, and every other lock is as it was; the result is that of
-- `block_unchecked`.
pub safe_block_impl-restores :
    {S R : Type 0} (block_unchecked : Bool → S → Option (R × S)) (me self : ℕ) (asynchronous : Bool)
    (locks : Locks) (s s' : S) (r : R)
    → me ≢ 0
    → IsFree (locks me)
    → IsFree (locks self)
    → block_unchecked asynchronous s ≡ some (r, s')
    → (locks' : Locks) × (safe_block_impl block_unchecked me self asynchronous (locks, s)
        ≡ some (r, locks', s'))
      × IsFree (locks' me)
      × IsFree (locks' self)
      × ((t : ℕ) → t ≢ me → t ≢ self → locks' t ≡ locks t)
unfolding safe_block_impl
safe_block_impl-restores block_unchecked me self asynchronous locks s s' r n fm fs e =
    let l1 = put_lock locks self (held me 1) in
    let first : lock_communication me self locks ≡ some l1 =
      ground (arith, lock_no_handshake-free me (locks self) n fs) in
    elim (Bool-cases (me == self)) [
      | inl b ↦
          let l2 = put_lock l1 me (held me 2) in
          let second : lock_communication me me l1 ≡ some l2 =
            ground (arith, b, lock_no_handshake-again me 1) in
          (
            drop_communication me (drop_communication self l2),
            ground (arith, first, second, e),
            ground (arith, b),
            ground (arith, b),
            λ t h k. ground (arith, h, k),
          )
      | inr b ↦
          let l2 = put_lock l1 me (held me 1) in
          let second : lock_communication me me l1 ≡ some l2 =
            ground (arith, b, lock_no_handshake-free me (locks me) n fm) in
          (
            drop_communication me (drop_communication self l2),
            ground (arith, first, second, e),
            ground (arith, b),
            ground (arith, b),
            λ t h k. ground (arith, h, k),
          )
    ]

-- Two threads that block each other at the same time can wait for ever: each takes the communication
-- lock of the other first, and then neither gets its own.
pub begin_pair_with_current-deadlock :
    (a b : ℕ) (locks : Locks)
    → a ≢ b
    → a ≢ 0
    → b ≢ 0
    → IsFree (locks a)
    → IsFree (locks b)
    → (l1 : Locks) × (l2 : Locks) × (begin_pair_with_current a b locks
        ≡ (lock_communication a b locks >>= lock_communication a a))
      × (begin_pair_with_current b a l1 ≡ (lock_communication b a l1 >>= lock_communication b b))
      × (lock_communication a b locks ≡ some l1)
      × (lock_communication b a l1 ≡ some l2)
      × (lock_communication a a l2 ≡ none)
      × (lock_communication b b l2 ≡ none)
unfolding begin_pair_with_current
begin_pair_with_current-deadlock a b locks ne na nb fa fb =
    let l1 = put_lock locks b (held a 1) in
    (
      l1,
      put_lock l1 a (held b 1),
      refl,
      refl,
      ground (arith, lock_no_handshake-free a (locks b) na fb),
      ground (arith, ne, lock_no_handshake-free b (locks a) nb fa),
      ground (arith, ne, lock_no_handshake-taken a b 1 ne nb),
      ground (arith, ne, lock_no_handshake-taken b a 1 (λ q. ne (ground (arith, q))) na),
    )
