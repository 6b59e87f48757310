-- ===== src/SysCommon/Poison/Fresh.antt =====
-- Relaxed accesses of the flag are enough (src/sys_common/poison.rs).
use pinned_sync.Base.{ℕ, ◌≤◌, ◌≡◌, refl, true, false, arith}
use pinned_sync.Std.{Thread, is_err}
use pinned_sync.SysCommon.Poison.{new, get, borrow}
use pinned_sync.SysCommon.Poison.Relaxed.{
  Pc, is_inside, has_alone, System, Step, lock_shared, lock_alone, borrowed, looked, done_stores,
  done_passes, read_dropped, unlock, start, Reach, here, later,
}

record Inv (s : System) : Type 0 where
  latest : (s.writes s.last).failed ≡ s.panicked
  free : ((j : ℕ) → has_alone (s.pc j) ≡ false) → s.released ≡ s.last
  fresh : (i : ℕ) → is_inside (s.pc i) ≡ true → s.known i ≡ s.last
  apart : (i j : ℕ) → has_alone (s.pc i) ≡ true → is_inside (s.pc j) ≡ true → i ≡ j
  known_le : (i : ℕ) → s.known i ≤ s.last
  released_le : s.released ≤ s.last

start-Inv : Inv start
unfolding new
start-Inv = record {
  latest = refl;
  free = λ h. refl;
  fresh = λ i h. refl;
  apart = λ i j h h'. cc;
  known_le = λ i. omega arith;
  released_le = omega arith;
}

not_alone : (p : Pc) → is_inside p ≡ false → has_alone p ≡ false
not_alone p h = ground arith

module _ {s : System} (inv : Inv s) where
  open inv use {latest, free, fresh, apart, known_le, released_le}

  latest_after : {t : System} → Step s t → (t.writes t.last).failed ≡ t.panicked
  latest_after (done_stores i p e h) = ground arith
  latest_after _ = latest

  free_after :
      {t : System} → Step s t → ((j : ℕ) → has_alone (t.pc j) ≡ false) → t.released ≡ t.last
  free_after (lock_shared i e h) q = free h
  free_after (lock_alone i e h) q = free (λ j. not_alone (s.pc j) (h j))
  free_after (borrowed i p at e le le') q = free (λ j. ground (arith, q j))
  free_after (looked i at le le') q = free q
  free_after (done_stores i p e h) q = absurd (ground (arith, q i))
  free_after (done_passes i p e h) q = absurd (ground (arith, q i))
  free_after (read_dropped i e) q = free (λ j. ground (arith, q j))
  free_after (unlock i e) q = ground (arith, fresh i, released_le)

  fresh_after : {t : System} → Step s t → (j : ℕ) → is_inside (t.pc j) ≡ true → t.known j ≡ t.last
  fresh_after (lock_shared i e h) j q = ground (arith, fresh j, free h, known_le i)
  fresh_after (lock_alone i e h) j q =
      ground (arith, fresh j, free (λ l. not_alone (s.pc l) (h l)), known_le i)
  fresh_after (borrowed i p at e le le') j q = ground (arith, fresh j, fresh i)
  fresh_after (looked i at le le') j q = ground (arith, fresh j, fresh i)
  fresh_after (done_stores i p e h) j q = ground (arith, fresh j, apart i j)
  fresh_after (done_passes i p e h) j q = ground (arith, fresh j, fresh i)
  fresh_after (read_dropped i e) j q = ground (arith, fresh j, fresh i)
  fresh_after (unlock i e) j q = ground (arith, fresh j, fresh i)

  apart_after :
      {t : System}
      → Step s t
      → (j l : ℕ) → has_alone (t.pc j) ≡ true
      → is_inside (t.pc l) ≡ true
      → j ≡ l
  apart_after (lock_shared i e h) j l q q' = ground (arith, apart j l, h j)
  apart_after (lock_alone i e h) j l q q' = ground (arith, apart j l, h l, h j, not_alone (s.pc j))
  apart_after (borrowed i p at e le le') j l q q' = ground (arith, apart j l, apart i l, apart j i)
  apart_after (looked i at le le') j l q q' = apart j l q q'
  apart_after (done_stores i p e h) j l q q' = ground (arith, apart j l, apart i l, apart j i)
  apart_after (done_passes i p e h) j l q q' = ground (arith, apart j l, apart i l, apart j i)
  apart_after (read_dropped i e) j l q q' = ground (arith, apart j l, apart i l, apart j i)
  apart_after (unlock i e) j l q q' = ground (arith, apart j l, apart i l, apart j i)

  known_after : {t : System} → Step s t → (j : ℕ) → t.known j ≤ t.last
  known_after (lock_shared i e h) j = ground (arith, known_le j, known_le i, released_le)
  known_after (lock_alone i e h) j = ground (arith, known_le j, known_le i, released_le)
  known_after (borrowed i p at e le le') j = ground (arith, known_le j, known_le i, released_le)
  known_after (looked i at le le') j = ground (arith, known_le j, known_le i, released_le)
  known_after (done_stores i p e h) j = ground (arith, known_le j, known_le i, released_le)
  known_after (done_passes i p e h) j = ground (arith, known_le j, known_le i, released_le)
  known_after (read_dropped i e) j = ground (arith, known_le j, known_le i, released_le)
  known_after (unlock i e) j = ground (arith, known_le j, known_le i, released_le)

  released_after : {t : System} → Step s t → t.released ≤ t.last
  released_after (lock_shared i e h) = ground (arith, known_le i, released_le)
  released_after (lock_alone i e h) = ground (arith, known_le i, released_le)
  released_after (borrowed i p at e le le') = ground (arith, known_le i, released_le)
  released_after (looked i at le le') = ground (arith, known_le i, released_le)
  released_after (done_stores i p e h) = ground (arith, known_le i, released_le)
  released_after (done_passes i p e h) = ground (arith, known_le i, released_le)
  released_after (read_dropped i e) = ground (arith, known_le i, released_le)
  released_after (unlock i e) = ground (arith, known_le i, released_le)

  Step-Inv : {t : System} → Step s t → Inv t
  Step-Inv st = record {
    latest = latest_after st;
    free = free_after st;
    fresh = fresh_after st;
    apart = apart_after st;
    known_le = known_after st;
    released_le = released_after st;
  }

Reach-Inv : {s : System} → Reach s → Inv s
Reach-Inv here = start-Inv
Reach-Inv (later r st) = Step-Inv (Reach-Inv r) st

-- With relaxed accesses, whichever write of the flag a load finds: a thread that has the lock, for
-- reading or for writing, finds the last one, and its `borrow` is an error exactly when a section
-- for writing was left before by a panic that began in it.
pub relaxed_is_enough :
    {s : System}
    → Reach s
    → (i at : ℕ) (th : Thread) → is_inside (s.pc i) ≡ true
    → s.known i ≤ at
    → at ≤ s.last
    → (at ≡ s.last) × (is_err (borrow th (s.writes at)) ≡ s.panicked)
unfolding borrow get
relaxed_is_enough {s} r i at th h le le' =
    let inv = Reach-Inv r in
    let same : at ≡ s.last = omega (arith, inv.fresh i h) in (same, ground (arith, inv.latest))
