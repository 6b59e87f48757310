-- ===== src/Condvar.antt =====
-- src/condvar.rs: the condition variable, over that of the platform.
pub mod Waiting
pub mod Panics
pub mod Timing
pub mod OverFallback
pub mod OverUnix
pub mod Make
pub mod Threads
use pinned_sync.Base.{
  ℕ, zero, suc, ◌-◌, Bool, true, false, not, Option, none, some, ltb, if◌then◌else◌,
}
use pinned_sync.Effect.{
  Outcome, returned, M, pure, block, gets, modify, on, on_unwind, with_local, ◌>>=◌, ◌>>◌,
}
use pinned_sync.Std.{Result, ok, err, LockResult, PoisonError, poison_error, Thread}
use pinned_sync.Sys.Interface.{SysMutex}
use pinned_sync.Mutex
use pinned_sync.Mutex.{Mutex, MutexGuard}

-- What src/condvar.rs uses of a platform. `World` is the condition variable, the mutex with its
-- value and whatever else the threads share: a wait lets other threads change all of it. Durations
-- are in nanoseconds, and `now` is `Instant::now()`.
pub record SysCondvar (sys : SysMutex) (T : Type 0) : Type 1 where
  pub World : Type 0
  pub mutex_of : World → Mutex sys T
  pub set_mutex : Mutex sys T → World → World
  pub now : World → ℕ
  pub notify_one : M World (Unit {0})
  pub notify_all : M World (Unit {0})
  pub wait : Thread → sys.RawGuard → M World sys.RawGuard
  pub wait_timeout : Thread → sys.RawGuard → (dur : ℕ) → M World (Bool × sys.RawGuard)

pub record WaitTimeoutResult : Type 0 where
  pub value : Bool

unfoldable pub timed_out : WaitTimeoutResult → Bool
timed_out r = r.value

module _ {sys : SysMutex} {T : Type 0} (cv : SysCondvar sys T) where
  open cv use {
    World, mutex_of, set_mutex, now, notify_one as sys_notify_one, notify_all as sys_notify_all,
    wait as sys_wait, wait_timeout as sys_wait_timeout,
  }

  abbrev Guard : Type 0
  Guard = MutexGuard sys

  unfoldable pub notify_one : M World (Unit {0})
  notify_one = sys_notify_one

  unfoldable pub notify_all : M World (Unit {0})
  notify_all = sys_notify_all

  unfoldable pub wait : Thread → Guard → M World (LockResult Guard)
  unfolding Mutex.map
  wait th lock = Mutex.map sys mutex_of lock (sys_wait th)

  abbrev pub set_value : T → World → World
  set_value value w = set_mutex (record (mutex_of w) { cell = value }) w

  -- A thread in which a closure panics drops the guard in unwinding.
  abbrev pub drop_unwinding : Thread → Guard → M World (Unit {0})
  drop_unwinding th guard =
      on mutex_of set_mutex (Mutex.drop_guard sys (record { id = th.id; panicking = true }) guard)

  -- `condition(&mut *guard)`: the closure may change the value, and may panic.
  abbrev pub evaluate : Thread → Guard → (T → Outcome Bool × T) → M World Bool
  evaluate th guard condition =
      on_unwind (drop_unwinding th guard)
        λ w. let (b, value) = condition (mutex_of w).cell in (b, set_value value w)

  -- The operator `?` on the result of a wait.
  abbrev pub or_return :
      {A B : Type 0}
      → (A → M World (Result B (PoisonError B)))
      → (A → B)
      → LockResult A
      → M World (LockResult B)
  or_return k convert (ok g) = k g
  or_return k convert (err e) = pure (err (poison_error (convert e.guard)))

  -- `fuel` bounds the rounds of the loop; a call that has not returned by then still waits.
  unfoldable pub wait_while :
      (fuel : ℕ) → Thread → (T → Outcome Bool × T) → Guard → M World (LockResult Guard)
  unfolding wait
  wait_while zero th condition guard = block
  wait_while (suc fuel) th condition guard = evaluate th guard condition >>= elim [
    | true ↦ wait th guard >>= or_return (λ g. wait_while fuel th condition g) (λ g. g)
    | false ↦ pure (ok guard)
  ]

  -- The closure sets the local variable `timeout`.
  wait_timeout_closure : Thread → ℕ → sys.RawGuard → M (Bool × World) sys.RawGuard
  wait_timeout_closure th dur guard = do
    result ← on (λ s. s.1) (λ w s. (s.0, w)) (sys_wait_timeout th guard dur)
    modify (λ s. (not result.0, s.1))
    pure result.1

  -- `wait_timeout` up to its `match`: the result of `map`, and the local variable.
  timed_map : Thread → Guard → ℕ → M (Bool × World) (LockResult Guard × Bool)
  unfolding wait_timeout_closure Mutex.map
  timed_map th lock dur = do
    result ← Mutex.map sys (λ s. mutex_of s.1) lock (wait_timeout_closure th dur)
    timeout ← gets (λ s. s.0)
    pure (result, timeout)

  abbrev with_result : LockResult Guard × Bool → LockResult (Guard × WaitTimeoutResult)
  with_result (ok v, timeout) = ok (v, record { value = timeout })
  with_result (err e, timeout) = err (poison_error (e.guard, record { value = timeout }))

  unfoldable pub wait_timeout :
      Thread → Guard → (dur : ℕ) → M World (LockResult (Guard × WaitTimeoutResult))
  unfolding timed_map
  wait_timeout th lock dur =
      with_local false do result ← timed_map th lock dur; pure (with_result result)

  -- `dur.checked_sub(elapsed)`
  abbrev pub checked_sub : ℕ → ℕ → Option ℕ
  checked_sub dur elapsed = if ltb dur elapsed then none else some (dur - elapsed)

  -- The loop of `wait_timeout_while`, which began at `start`.
  unfoldable pub timed_loop :
      (fuel : ℕ)
      → Thread
      → (start dur : ℕ) → (T → Outcome Bool × T)
      → Guard
      → M World (LockResult (Guard × WaitTimeoutResult))
  unfolding wait_timeout
  timed_loop zero th start dur condition guard = block
  timed_loop (suc fuel) th start dur condition guard = evaluate th guard condition >>= elim [
    | false ↦ pure (ok (guard, record { value = false }))
    | true ↦ gets (λ w. checked_sub dur (now w - start)) >>= elim [
      | none ↦ pure (ok (guard, record { value = true }))
      | some timeout ↦
          wait_timeout th guard timeout
          >>= or_return (λ r. timed_loop fuel th start dur condition r.0) (λ r. r)
    ]
  ]

  unfoldable pub wait_timeout_while :
      (fuel : ℕ)
      → Thread
      → Guard
      → (dur : ℕ) → (T → Outcome Bool × T)
      → M World (LockResult (Guard × WaitTimeoutResult))
  unfolding timed_loop
  wait_timeout_while fuel th guard dur condition = do
    start ← gets now
    timed_loop fuel th start dur condition guard
