-- ===== src/Barrier/Platform/Uses.antt =====
-- The steps of threads at a barrier over a platform are calls of one `Mutex` and waits on one
-- `Condvar` (src/barrier.rs over src/mutex.rs and src/condvar.rs).
use pinned_sync.Base.{
  ℕ, ◌≡◌, refl, ap, ◌∙◌, Option, none, some, List, [], true, false, arith, update, inl, inr, ◌⊎◌,
  ◌≢◌, sym, ==_of_ne,
}
use pinned_sync.Effect.{returned, panicked}
use pinned_sync.Std.{Thread}
use pinned_sync.SysCommon.Poison.History.{Section}
use pinned_sync.Sys.Interface.{SysMutex, Phase, SysMutexLaws, free, held}
use pinned_sync.Mutex
use pinned_sync.Mutex.{MutexGuard}
use pinned_sync.Mutex.Calls.{lock_free_lem, lock_held_lem}
use pinned_sync.Mutex.Threads as Calls
use pinned_sync.Condvar.Threads as Waits
use pinned_sync.Condvar.Threads.{Waiter, awake, asleep, acts, sleeps, wakes, notified_all, resumes}
use pinned_sync.Condvar.Threads.Invariant as WaitsInvariant
use pinned_sync.Barrier.{BarrierState, uninit_state}
use pinned_sync.Barrier.Threads.{thread}
use pinned_sync.Barrier.Platform.{
  Pc, outside, locked, testing, sleeping, woken, notifying, leaving, System, Lock, Move, call, lock,
  lock_poisoned, lock_panics, count, sleep, spurious, relock, relock_poisoned, relock_panics, pass,
  leave, wake, Step, pick, notify_all, Reach, made, later,
}

module _ {sys : SysMutex} where
  -- The guard that a thread has at a place in `wait`.
  abbrev pub guard_of : Pc sys → Option (MutexGuard sys)
  guard_of (locked _ g) = some g
  guard_of (testing f) = some f.lock
  guard_of (notifying f) = some f.lock
  guard_of (leaving f _) = some f.lock
  guard_of _ = none

  -- What it is to the condition variable.
  abbrev pub waiter_of : Pc sys → Waiter
  waiter_of (sleeping f) = asleep f.lock.poison
  waiter_of (woken f) = Waits.woken f.lock.poison
  waiter_of _ = awake

  abbrev pub world :
      Lock sys
      → (ℕ → Option (MutexGuard sys))
      → (ℕ → Thread)
      → List Section
      → (ℕ → Waiter)
      → Waits.System sys BarrierState
  world m guards begun history waiting = record {
    base = record { mutex = m; guards = guards; begun = begun; history = history };
    waiting = waiting;
  }

  -- Threads that use the lock of the barrier in the same state, each with the guard and in the wait
  -- that it has at the barrier.
  pub record ThroughCalls (c : System sys) : Type 0 where
    pub guards : ℕ → Option (MutexGuard sys)
    pub begun : ℕ → Thread
    pub history : List Section
    pub waiting : ℕ → Waiter
    pub reach : Waits.Reach sys BarrierState (world c.mem guards begun history waiting)
    pub same_guards : (i : ℕ) → guards i ≡ guard_of (c.pc i)
    pub same_waits : (i : ℕ) → waiting i ≡ waiter_of (c.pc i)

module _ (sys : SysMutex) (InPhase : sys.Raw → Phase → Type 0)
    (laws : SysMutexLaws sys InPhase) where
  module _ {c : System sys} (u : ThroughCalls c) where
    -- A thread that has no guard finds the lock free, or with another thread.
    elsewhere :
        (i : ℕ)
        → u.guards i ≡ none
        → InPhase c.mem.inner free ⊎ ((v : ℕ) × (i ≢ v) × InPhase c.mem.inner (held v))
    elsewhere i q = elim (WaitsInvariant.Reach-Inv sys InPhase laws u.reach).sound.owned [
      | inl idle ↦ inl idle.0
      | inr (v, h) ↦ inr (v, λ same. h.1 (ap u.guards (sym same) ∙ q), h.0)
    ]

    lock_returns :
        (th : Thread) (m : Lock sys)
        → u.guards th.id ≡ none
        → Mutex.lock sys th c.mem ≢ (panicked, m)
    lock_returns th m q h = elim (elsewhere th.id q) [
      | inl f ↦ let (r, m', e) = lock_free_lem sys InPhase laws th c.mem f in cc
      | inr (v, ne, f) ↦
          ground (arith, ==_of_ne th.id v ne, lock_held_lem sys InPhase laws th v c.mem f)
    ]

    relock_returns :
        (th : Thread) (raw : sys.Raw)
        → u.guards th.id ≡ none
        → sys.lock th c.mem.inner ≢ (panicked, raw)
    relock_returns th raw q h = elim (elsewhere th.id q) [
      | inl f ↦ let (g, raw', e, held') = laws.lock_free th c.mem.inner f in cc
      | inr (v, ne, f) ↦ ground (arith, ==_of_ne th.id v ne, laws.lock_held th v c.mem.inner f)
    ]

    -- Thread `i` goes to the place `p'`, where it has the guard `g` and waits as `w` says.
    uses_at :
        {m : Lock sys} {begun : ℕ → Thread} {history : List Section}
        {guards : ℕ → Option (MutexGuard sys)} {waiting : ℕ → Waiter} (i : ℕ) (p' : Pc sys)
        → Waits.Reach sys BarrierState (world m guards begun history waiting)
        → ((j : ℕ) → guards j ≡ update u.guards i (guard_of p') j)
        → ((j : ℕ) → waiting j ≡ update u.waiting i (waiter_of p') j)
        → ThroughCalls (record { mem = m; pc = update c.pc i p' })
    uses_at {begun} {history} {guards} {waiting} i p' reach gs ws = record {
      guards = guards;
      begun = begun;
      history = history;
      waiting = waiting;
      reach = reach;
      same_guards = λ j. ground (arith, gs j, u.same_guards j);
      same_waits = λ j. ground (arith, ws j, u.same_waits j);
    }

    guard_at : (i : ℕ) {p : Pc sys} → c.pc i ≡ p → u.guards i ≡ guard_of p
    guard_at i e = u.same_guards i ∙ ap guard_of e

    wait_at : (i : ℕ) {p : Pc sys} → c.pc i ≡ p → u.waiting i ≡ waiter_of p
    wait_at i e = u.same_waits i ∙ ap waiter_of e

    move :
        {n : ℕ} (i : ℕ) {m : Lock sys} {p p' : Pc sys}
        → c.pc i ≡ p
        → Move sys n i c.mem p m p'
        → ThroughCalls (record { mem = m; pc = update c.pc i p' })
    move i e (call q) =
        uses_at i _ u.reach (λ j. ground (arith, guard_at i e)) (λ j. ground (arith, wait_at i e))
    move i e (lock {p} {g} h) =
        uses_at i _ (Waits.later u.reach (acts (Calls.locked (thread i p) h) (wait_at i e)))
          (λ j. refl) (λ j. ground (arith, wait_at i e))
    move i e (lock_poisoned {p} {e = x} h d) =
        uses_at i _
          (Waits.later (Waits.later u.reach (acts (Calls.locked (thread i p) h) (wait_at i e)))
            (acts (Calls.dropped (thread i true) (ground arith) d) (wait_at i e)))
          (λ j. ground arith) (λ j. ground (arith, wait_at i e))
    move i e (lock_panics {p} {m'} h) = absurd (lock_returns (thread i p) m' (guard_at i e) h)
    move i e (count {p} {g} {leads} {st} h d) =
        uses_at i _
          (Waits.later u.reach (acts (Calls.wrote (thread i p) st (guard_at i e) d) (wait_at i e)))
          (λ j. ground (arith, guard_at i e)) (λ j. ground (arith, wait_at i e))
    move i e (sleep {f} h d) =
        uses_at i _ (Waits.later u.reach (sleeps (thread i f.panicking) (guard_at i e) d))
          (λ j. refl) (λ j. refl)
    move i e (spurious {f}) =
        uses_at i _ (Waits.later u.reach (wakes i (wait_at i e)))
          (λ j. ground (arith, guard_at i e)) (λ j. refl)
    move i e (relock {f} {g} {raw} {lock = again} h d) =
        uses_at i _ (Waits.later u.reach (resumes (thread i f.panicking) (wait_at i e) h d))
          (λ j. refl) (λ j. refl)
    move i e (relock_poisoned {f} {g} {raw} {e = x} h r d) =
        uses_at i _
          (Waits.later (Waits.later u.reach (resumes (thread i f.panicking) (wait_at i e) h r))
            (acts (Calls.dropped (thread i true) (ground arith) d) (ground arith)))
          (λ j. ground arith) (λ j. refl)
    move i e (relock_panics {f} {raw} h) =
        absurd (relock_returns (thread i f.panicking) raw (guard_at i e) h)
    move i e (pass {f} h) =
        uses_at i _ u.reach (λ j. ground (arith, guard_at i e)) (λ j. ground (arith, wait_at i e))
    move i e (leave {f} {r} d) =
        uses_at i _
          (Waits.later u.reach
            (acts (Calls.dropped (thread i f.panicking) (guard_at i e) d) (wait_at i e)))
          (λ j. refl) (λ j. ground (arith, wait_at i e))

  start_uses :
      (m : Lock sys)
      → Mutex.boxed sys uninit_state ≡ (returned tt, m)
      → ThroughCalls (record { mem = m; pc = λ _. outside })
  start_uses m e = record {
    guards = λ _. none;
    begun = λ i. thread i false;
    history = [];
    waiting = λ _. awake;
    reach = Waits.made uninit_state (λ i. thread i false) e;
    same_guards = λ i. refl;
    same_waits = λ i. refl;
  }

  waiter_of-wake :
      (p : Pc sys) (w : Waiter) → w ≡ waiter_of p → Waits.rouse w ≡ waiter_of (wake sys p)
  waiter_of-wake p w e = ground arith

  guard_of-wake : (p : Pc sys) → guard_of (wake sys p) ≡ guard_of p
  guard_of-wake p = ground arith

  step : {k n : ℕ} {c c' : System sys} → Step sys k n c c' → ThroughCalls c → ThroughCalls c'
  step (pick i lt mv) u = move u i refl mv
  step {c = c} (notify_all i {f} lt e) u = record {
    guards = u.guards;
    begun = u.begun;
    history = u.history;
    waiting = λ j. Waits.rouse (u.waiting j);
    reach = Waits.later u.reach notified_all;
    same_guards = λ j. ground (arith, u.same_guards j, guard_of-wake (c.pc j));
    same_waits =
        λ j. ground (arith, waiter_of-wake (c.pc j) (u.waiting j) (u.same_waits j), u.same_waits j);
  }

  -- Every state that threads reach at a barrier over a platform that keeps the contract of
  -- `SysMutex` is one that threads reach by calls of the methods of one `Mutex` and waits on one
  -- `Condvar`: with the same lock, each thread has the guard, and is in the wait, that its place at
  -- the barrier says.
  pub barrier_uses_condvar : {k n : ℕ} {c : System sys} → Reach sys k n c → ThroughCalls c
  barrier_uses_condvar (made {m} e) = start_uses m e
  barrier_uses_condvar (later r st) = step st (barrier_uses_condvar r)
