-- ===== src/Sync.antt =====
-- vmkit/src/sync/monitor.rs: `Monitor`, a lock that its holder may take again, with a condition
-- variable. A thread is a number that is not 0, the address that `get_thread_id` gives; the mutex
-- of parking_lot is who holds it. The operations of one thread are single steps: the fields that
-- they change are read by other threads only to compare `holder` with the reader.
pub mod Exclusion
pub mod Handshake
pub mod Pairing
mod Tests
use vmkit_core.Prelude.{
  ℕ, zero, suc, ◌+◌, ◌-◌, ◌≡◌, ◌≢◌, Bool, true, false, not, if◌then◌else◌, Option, none, some, ◌==◌,
  ◌>>=◌,
}

pub record Monitor : Type 0 where
  -- 0 if the mutex is free
  pub mutex : ℕ
  pub rec_count : ℕ
  pub holder : ℕ

abbrev pub new : Monitor
new = record { mutex = 0; rec_count = 0; holder = 0 }

-- `mutex.lock()`; `none` while the thread has to wait.
pub lock_mutex : ℕ → Monitor → Option Monitor
lock_mutex me m = if m.mutex == 0 then some (record m { mutex = me }) else none

pub lock_no_handshake : ℕ → Monitor → Option Monitor
unfolding lock_mutex
lock_no_handshake me m =
    if not (m.holder == me)
    then (do m' ← lock_mutex me m; some (record m' { holder = me; rec_count = m'.rec_count + 1 }))
    else some (record m { rec_count = m.rec_count + 1 })

-- The drop of a guard.
pub drop_guard : Monitor → Monitor
drop_guard m =
    let m' = record m { rec_count = m.rec_count - 1 } in
    if m.rec_count == 1 then record m' { holder = 0; mutex = 0 } else m'

-- The count that it returns, and the monitor.
pub unlock_completely : Monitor → ℕ × Monitor
unlock_completely m = (m.rec_count, record m { rec_count = 0; holder = 0; mutex = 0 })

pub relock_no_handshake : ℕ → ℕ → Monitor → Option Monitor
unfolding lock_mutex
relock_no_handshake me rec_count m = do
  m' ← lock_mutex me m
  some (record m' { holder = me; rec_count = rec_count })

-- `wait_no_handshake` up to the point where `cvar.wait` has released the mutex: the count and the
-- holder that the thread keeps, and the monitor.
pub begin_wait : Monitor → ℕ × ℕ × Monitor
begin_wait m = (m.rec_count, m.holder, record m { rec_count = 0; holder = 0; mutex = 0 })

-- From the point where `cvar.wait` takes the mutex again.
pub end_wait : ℕ → ℕ → ℕ → Monitor → Option Monitor
unfolding lock_mutex
end_wait me rec_count holder m = do
  m' ← lock_mutex me m
  some (record m' { rec_count = rec_count; holder = holder })

-- All threads: the guards that each has, and those that it gave up for a wait or a section without
-- the lock, which it will have again.
pub record Threads : Type 0 where
  pub monitor : Monitor
  pub guards : ℕ → ℕ
  pub suspended : ℕ → ℕ

abbrev pub at : (ℕ → ℕ) → ℕ → ℕ → ℕ → ℕ
at f t v x = if x == t then v else f x

-- A step of the thread `t`.
pub data Step (s : Threads) (t : ℕ) : Threads → Type 0 where
  locks :
      {m : Monitor}
      → s.suspended t ≡ 0
      → lock_no_handshake t s.monitor ≡ some m
      → Step s t (record s { monitor = m; guards = at s.guards t (s.guards t + 1) })
  drops :
      s.guards t ≢ 0
      → Step s t
          (record s { monitor = drop_guard s.monitor; guards = at s.guards t (s.guards t - 1) })
  unlocks :
      s.guards t ≢ 0
      → Step s t (record {
        monitor = (unlock_completely s.monitor).1;
        guards = at s.guards t 0;
        suspended = at s.suspended t (unlock_completely s.monitor).0;
      })
  relocks :
      {m : Monitor}
      → s.suspended t ≢ 0
      → relock_no_handshake t (s.suspended t) s.monitor ≡ some m
      → Step s t (record {
        monitor = m;
        guards = at s.guards t (s.suspended t);
        suspended = at s.suspended t 0;
      })
  waits :
      s.guards t ≢ 0
      → Step s t (record {
        monitor = (begin_wait s.monitor).2;
        guards = at s.guards t 0;
        suspended = at s.suspended t (begin_wait s.monitor).0;
      })
  wakes :
      {m : Monitor}
      → s.suspended t ≢ 0
      → end_wait t (s.suspended t) t s.monitor ≡ some m
      → Step s t (record {
        monitor = m;
        guards = at s.guards t (s.suspended t);
        suspended = at s.suspended t 0;
      })

pub data Reach : Threads → Type 0 where
  start : Reach (record { monitor = new; guards = λ t. 0; suspended = λ t. 0 })
  later : {s u : Threads} {t : ℕ} → Reach s → t ≢ 0 → Step s t u → Reach u
