-- ===== src/Condvar/Waiting.antt =====
-- What `wait` and `wait_while` of src/condvar.rs return.
use pinned_sync.Base.{ℕ, zero, suc, ◌<◌, ◌≡◌, Bool, true, false, arith, if◌then◌else◌}
use pinned_sync.Effect.{Outcome, returned, M, pure, ◌>>=◌}
use pinned_sync.Effect.Returned.{bind_returned}
use pinned_sync.Std.{ok, err, LockResult, PoisonError, poison_error, Thread}
use pinned_sync.Sys.Interface.{SysMutex}
use pinned_sync.Mutex.{MutexGuard, is_poisoned}
use pinned_sync.Condvar.{SysCondvar, wait, evaluate, or_return, wait_while}

module _ {sys : SysMutex} {T : Type 0} (cv : SysCondvar sys T) where
  open cv use {World, mutex_of, wait as sys_wait}

  -- If the platform's wait returns a guard, `wait` gives it back, with the note of the panic state
  -- from when the mutex was locked; it is an error exactly when the mutex is poisoned by then.
  wait_reports :
      (th : Thread) (lock : MutexGuard sys) (raw : sys.RawGuard) (w w' : World)
      → sys_wait th lock.guard w ≡ (returned raw, w')
      → let g : MutexGuard sys = record { guard = raw; poison = lock.poison } in
        wait cv th lock w
        ≡ (returned (if is_poisoned sys (mutex_of w') then err (poison_error g) else ok g), w')
  unfolding wait
  wait_reports th lock raw w w' e = ground arith

  wait_error :
      (th : Thread) (lock : MutexGuard sys) (e : PoisonError (MutexGuard sys)) (w w' : World)
      → wait cv th lock w ≡ (returned (err e), w')
      → is_poisoned sys (mutex_of w') ≡ true
  unfolding wait
  wait_error th lock e w w' h = ground arith

  module _ (th : Thread) (condition : T → Outcome Bool × T) where
    -- How `wait_while` ends: the condition has just been found false, or the mutex is poisoned.
    abbrev pub Ended : LockResult (MutexGuard sys) → World → Type 0
    Ended (ok g) w' = (w : World) × (evaluate cv th g condition w ≡ (returned false, w'))
    Ended (err e) w' = is_poisoned sys (mutex_of w') ≡ true

    abbrev EndsFrom : (fuel : ℕ) → LockResult (MutexGuard sys) → World → Type 0
    EndsFrom fuel r w' =
        (g : MutexGuard sys) (u : World)
        → wait_while cv fuel th condition g u ≡ (returned r, w')
        → Ended r w'

    -- The rest of a round, from the result of its wait on and from the answer of its test on.
    ends_after :
        (fuel : ℕ) (guard : MutexGuard sys) (a r : LockResult (MutexGuard sys)) (v u w' : World)
        → wait cv th guard v ≡ (returned a, u)
        → or_return cv (λ g. wait_while cv fuel th condition g) (λ g. g) a u ≡ (returned r, w')
        → EndsFrom fuel r w'
        → Ended r w'
    ends_after fuel guard (ok g) r v u w' h e ih = ih g u e
    ends_after fuel guard (err x) (ok g) v u w' h e ih = absurd (ground arith)
    ends_after fuel guard (err x) (err y) v u w' h e ih = wait_error th guard x v w' (ground arith)

    abbrev tested : (fuel : ℕ) → MutexGuard sys → Bool → M World (LockResult (MutexGuard sys))
    tested fuel guard = elim [
      | true ↦ wait cv th guard >>= or_return cv (λ g. wait_while cv fuel th condition g) (λ g. g)
      | false ↦ pure (ok guard)
    ]

    ends_tested :
        (fuel : ℕ) (guard : MutexGuard sys) (b : Bool) (r : LockResult (MutexGuard sys))
        (w v w' : World)
        → evaluate cv th guard condition w ≡ (returned b, v)
        → tested fuel guard b v ≡ (returned r, w')
        → EndsFrom fuel r w'
        → Ended r w'
    ends_tested fuel guard true r w v w' h e ih =
        let (a, u, waited, rest) =
          bind_returned (wait cv th guard)
            (or_return cv (λ g. wait_while cv fuel th condition g) (λ g. g)) v r w' e in
        ends_after fuel guard a r v u w' waited rest ih
    ends_tested fuel guard false (ok g) w v w' h e ih = (w, ground arith)
    ends_tested fuel guard false (err x) w v w' h e ih = absurd (ground arith)

    -- When `wait_while` returns a guard, its last act was to find the condition false, so the value
    -- in the mutex is as that test left it; when it returns an error the mutex is poisoned.
    wait_while_ends :
        (fuel : ℕ) (guard : MutexGuard sys) (r : LockResult (MutexGuard sys)) (w w' : World)
        → wait_while cv fuel th condition guard w ≡ (returned r, w')
        → Ended r w'
    unfolding wait_while
    wait_while_ends zero guard r w w' e = cc
    wait_while_ends (suc fuel) guard r w w' e =
        let (b, v, answer, rest) =
          bind_returned (evaluate cv th guard condition) (tested fuel guard) w r w' e in
        ends_tested fuel guard b r w v w' answer rest (λ g u. wait_while_ends fuel g r u w')

    -- The condition turns false after `n` waits that return.
    data Settles : ℕ → MutexGuard sys → World → Type 0 where
      now :
          {g : MutexGuard sys} {w w' : World}
          → evaluate cv th g condition w ≡ (returned false, w')
          → Settles zero g w
      later :
          {n : ℕ} {g g' : MutexGuard sys} {w v w' : World}
          → evaluate cv th g condition w ≡ (returned true, v)
          → wait cv th g v ≡ (returned (ok g'), w')
          → Settles n g' w'
          → Settles (suc n) g w

    -- The loop returns a guard as soon as the condition is false: after `n` waits, if it turns
    -- false then.
    wait_while_returns :
        {n : ℕ} {g : MutexGuard sys} {w : World}
        → Settles n g w
        → (fuel : ℕ) → n < fuel
        → (g' : MutexGuard sys) × (w' : World) × (wait_while cv fuel th condition g w
            ≡ (returned (ok g'), w'))
    unfolding wait_while
    wait_while_returns (now {g} {w} {w'} e) zero h = absurd (omega arith)
    wait_while_returns (now {g} {w} {w'} e) (suc fuel) h = (g, w', ground arith)
    wait_while_returns (later e f rest) zero h = absurd (omega arith)
    wait_while_returns (later e f rest) (suc fuel) h =
        let (g', w', q) = wait_while_returns rest fuel (omega arith) in (g', w', ground arith)
