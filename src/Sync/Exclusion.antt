-- ===== src/Sync/Exclusion.antt =====
-- At most one thread has guards, and the monitor counts them.
use vmkit_core.Prelude.{ℕ, ◌+◌, ◌≡◌, ◌≢◌, ◌⊎◌, inl, inr, refl, some, arith}
use vmkit_core.Sync.{
  Monitor, lock_mutex, lock_no_handshake, drop_guard, unlock_completely, relock_no_handshake,
  begin_wait, end_wait, Threads, Step, locks, drops, unlocks, relocks, waits, wakes, Reach, start,
  later,
}

-- The mutex, the holder and the count agree with the guards that the threads have.
record Inv (s : Threads) : Type 0 where
  agree : s.monitor.holder ≡ s.monitor.mutex
  counted : s.monitor.rec_count ≡ s.guards s.monitor.mutex
  others : (t : ℕ) → t ≢ s.monitor.mutex → s.guards t ≡ 0
  nobody : s.guards 0 ≡ 0
  owned : s.monitor.mutex ≢ 0 → s.guards s.monitor.mutex ≢ 0

Step-Inv : {s : Threads} {t : ℕ} {u : Threads} → t ≢ 0 → Step s t u → Inv s → Inv u
unfolding lock_no_handshake lock_mutex drop_guard unlock_completely relock_no_handshake begin_wait
    end_wait
Step-Inv {s = s} {t = t} n (locks z e) i = record {
  agree = ground (arith, i.agree, i.owned);
  counted = ground (arith, i.agree, i.counted, i.nobody, i.others t);
  others = λ x h. ground (arith, i.agree, i.others x);
  nobody = ground (arith, i.nobody);
  owned = λ h. ground (arith, i.agree, i.nobody);
}
Step-Inv {s = s} {t = t} n (drops g) i = record {
  agree = ground (arith, i.agree);
  counted = ground (arith, i.agree, i.counted, i.nobody, i.others t);
  others = λ x h. ground (arith, i.agree, i.others x, i.others t, i.counted);
  nobody = ground (arith, i.nobody);
  owned = λ h. ground (arith, i.others t, i.counted);
}
Step-Inv {s = s} {t = t} n (unlocks g) i = record {
  agree = refl;
  counted = ground (arith, i.nobody);
  others = λ x h. ground (arith, i.others x, i.others t);
  nobody = ground (arith, i.nobody);
  owned = λ h. absurd (h refl);
}
Step-Inv {s = s} {t = t} n (relocks g e) i = record {
  agree = ground arith;
  counted = ground arith;
  others = λ x h. ground (arith, i.others x);
  nobody = ground (arith, i.nobody);
  owned = λ h. ground arith;
}
Step-Inv {s = s} {t = t} n (waits g) i = record {
  agree = refl;
  counted = ground (arith, i.nobody);
  others = λ x h. ground (arith, i.others x, i.others t);
  nobody = ground (arith, i.nobody);
  owned = λ h. absurd (h refl);
}
Step-Inv {s = s} {t = t} n (wakes g e) i = record {
  agree = ground arith;
  counted = ground arith;
  others = λ x h. ground (arith, i.others x);
  nobody = ground (arith, i.nobody);
  owned = λ h. ground arith;
}

Reach-Inv : {s : Threads} → Reach s → Inv s
Reach-Inv start = record {
  agree = refl;
  counted = refl;
  others = λ t h. refl;
  nobody = refl;
  owned = λ h. absurd (h refl);
}
Reach-Inv (later r n s) = Step-Inv n s (Reach-Inv r)

-- In every reachable state, a thread that has a guard can take the lock again
-- at once; if nobody has a guard, any thread can.
pub lock_no_handshake-succeeds :
    {s : Threads} (t : ℕ)
    → t ≢ 0
    → Reach s
    → (s.guards t ≢ 0) ⊎ ((u : ℕ) → s.guards u ≡ 0)
    → (m : Monitor) × (lock_no_handshake t s.monitor ≡ some m) × (m.holder ≡ t)
unfolding lock_no_handshake lock_mutex
lock_no_handshake-succeeds {s = s} t n r h =
    let i = Reach-Inv r in
    elim h [
      | inl g ↦
          let o : s.monitor.holder ≡ t = ground (arith, i.agree, i.others t) in
          (record s.monitor { rec_count = s.monitor.rec_count + 1 }, ground (arith, o), o)
      | inr z ↦
          let o : s.monitor.mutex ≡ 0 = ground (arith, i.owned, z s.monitor.mutex) in
          (
            record { mutex = t; rec_count = s.monitor.rec_count + 1; holder = t },
            ground (arith, i.agree, o, n),
            refl,
          )
    ]
