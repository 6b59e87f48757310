-- ===== src/Condvar/Timing.antt =====
-- What `wait_timeout` and `wait_timeout_while` of src/condvar.rs return.
pub mod Returns
use pinned_sync.Base.{
  ℕ, zero, suc, ◌+◌, ◌-◌, ◌<◌, ◌≤◌, ◌≡◌, refl, ◌⊎◌, inl, inr, Bool, true, false, not, Option, none,
  some, arith, Bool-cases, if◌then◌else◌, ltb,
}
use pinned_sync.Effect.{Outcome, returned, M, pure, gets, ◌>>=◌}
use pinned_sync.Effect.Returned.{bind_returned}
use pinned_sync.Std.{Result, ok, err, LockResult, PoisonError, poison_error, Thread}
use pinned_sync.Sys.Interface.{SysMutex}
use pinned_sync.Mutex
use pinned_sync.Mutex.{MutexGuard, is_poisoned}
use pinned_sync.Condvar.{
  SysCondvar, WaitTimeoutResult, evaluate, or_return, wait_timeout, checked_sub, timed_loop,
  wait_timeout_while, with_result, timed_map, wait_timeout_closure,
}

module _ {sys : SysMutex} {T : Type 0} (cv : SysCondvar sys T) where
  open cv use {World, mutex_of, now, wait_timeout as sys_wait_timeout}

  abbrev pub Timed : Type 0
  Timed = MutexGuard sys × WaitTimeoutResult

  -- If the platform's timed wait returns, `wait_timeout` gives its guard back; the result says that
  -- it timed out exactly when the platform says that it was not woken. It is an error exactly when
  -- the mutex is poisoned by then.
  pub wait_timeout_reports :
      (th : Thread) (lock : MutexGuard sys) (dur : ℕ) (woken : Bool) (raw : sys.RawGuard)
      (w w' : World)
      → sys_wait_timeout th lock.guard dur w ≡ (returned (woken, raw), w')
      → let g : MutexGuard sys = record { guard = raw; poison = lock.poison } in
        let r : WaitTimeoutResult = record { value = not woken } in
        wait_timeout cv th lock dur w ≡ (
          returned (if is_poisoned sys (mutex_of w') then err (poison_error (g, r)) else ok (g, r)),
          w',
        )
  unfolding wait_timeout
  wait_timeout_reports th lock dur woken raw w w' e = ground arith

  wait_timeout_error :
      (th : Thread) (lock : MutexGuard sys) (dur : ℕ) (e : PoisonError Timed) (w w' : World)
      → wait_timeout cv th lock dur w ≡ (returned (err e), w')
      → is_poisoned sys (mutex_of w') ≡ true
  unfolding wait_timeout
  wait_timeout_error th lock dur e w w' h = ground arith

  module _ (th : Thread) (start dur : ℕ) (condition : T → Outcome Bool × T) where
    -- How `wait_timeout_while` ends: with a guard and `false` when the condition has just been
    -- found false, with a guard and `true` when it has just been found true and more than `dur` has
    -- passed since the start, or with an error when the mutex is poisoned.
    abbrev pub TimedEnded : LockResult Timed → World → Type 0
    TimedEnded (ok (g, r)) w' =
        ((r.value ≡ false) × ((w : World) × (evaluate cv th g condition w ≡ (returned false, w'))))
        ⊎ ((r.value ≡ true)
            × (dur < now w' - start)
            × ((w : World) × (evaluate cv th g condition w ≡ (returned true, w'))))
    TimedEnded (err e) w' = is_poisoned sys (mutex_of w') ≡ true

    abbrev EndsFrom : (fuel : ℕ) → LockResult Timed → World → Type 0
    EndsFrom fuel r w' =
        (g : MutexGuard sys) (u : World)
        → timed_loop cv fuel th start dur condition g u ≡ (returned r, w')
        → TimedEnded r w'

    timed_after :
        (fuel timeout : ℕ) (guard : MutexGuard sys) (a r : LockResult Timed) (v u w' : World)
        → wait_timeout cv th guard timeout v ≡ (returned a, u)
        → or_return cv (λ p. timed_loop cv fuel th start dur condition p.0) (λ p. p) a u
          ≡ (returned r, w')
        → EndsFrom fuel r w'
        → TimedEnded r w'
    timed_after fuel timeout guard (ok (g, t)) r v u w' h e ih = ih g u e
    timed_after fuel timeout guard (err x) (ok g) v u w' h e ih = absurd (ground arith)
    timed_after fuel timeout guard (err x) (err y) v u w' h e ih =
        wait_timeout_error th guard timeout x v w' (ground arith)

    -- A round from the answer of its test, and from the time that is left.
    abbrev timed_out_or : (fuel : ℕ) → MutexGuard sys → Option ℕ → M World (LockResult Timed)
    timed_out_or fuel guard = elim [
      | none ↦ pure (ok (guard, record { value = true }))
      | some timeout ↦
          wait_timeout cv th guard timeout
          >>= or_return cv (λ r. timed_loop cv fuel th start dur condition r.0) (λ r. r)
    ]

    abbrev tested : (fuel : ℕ) → MutexGuard sys → Bool → M World (LockResult Timed)
    tested fuel guard = elim [
      | false ↦ pure (ok (guard, record { value = false }))
      | true ↦ gets (λ w. checked_sub cv dur (now w - start)) >>= timed_out_or fuel guard
    ]

    ends_late :
        (guard : MutexGuard sys) (r : LockResult Timed) (w v w' : World)
        → evaluate cv th guard condition w ≡ (returned true, v)
        → ltb dur (now v - start) ≡ true
        → pure (ok (guard, record { value = true })) v ≡ (returned r, w')
        → TimedEnded r w'
    ends_late guard (ok (g, t)) w v w' h late e =
        inr (ground arith, ground arith, (w, ground arith))
    ends_late guard (err x) w v w' h late e = absurd (ground arith)

    ends_tested :
        (fuel : ℕ) (guard : MutexGuard sys) (b : Bool) (r : LockResult Timed) (w v w' : World)
        → evaluate cv th guard condition w ≡ (returned b, v)
        → tested fuel guard b v ≡ (returned r, w')
        → EndsFrom fuel r w'
        → TimedEnded r w'
    ends_tested fuel guard false (ok g) w v w' h e ih = inl (ground arith, (w, ground arith))
    ends_tested fuel guard false (err x) w v w' h e ih = absurd (ground arith)
    ends_tested fuel guard true r w v w' h e ih = elim (Bool-cases (ltb dur (now v - start))) [
      | inl late ↦ ends_late guard r w v w' h late (ground arith)
      | inr early ↦
          let (a, u, waited, rest) =
            bind_returned (wait_timeout cv th guard (dur - (now v - start)))
              (or_return cv (λ p. timed_loop cv fuel th start dur condition p.0) (λ p. p)) v r w'
              (ground arith) in
          timed_after fuel (dur - (now v - start)) guard a r v u w' waited rest ih
    ]

    -- Whenever the loop of `wait_timeout_while` returns, it has ended in one of the three ways of
    -- `TimedEnded`.
    pub timed_loop_ends :
        (fuel : ℕ) (guard : MutexGuard sys) (r : LockResult Timed) (w w' : World)
        → timed_loop cv fuel th start dur condition guard w ≡ (returned r, w')
        → TimedEnded r w'
    unfolding timed_loop
    timed_loop_ends zero guard r w w' e = cc
    timed_loop_ends (suc fuel) guard r w w' e =
        let (b, v, answer, rest) =
          bind_returned (evaluate cv th guard condition) (tested fuel guard) w r w' e in
        ends_tested fuel guard b r w v w' answer rest (λ g u. timed_loop_ends fuel g r u w')
