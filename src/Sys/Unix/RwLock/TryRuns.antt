-- ===== src/Sys/Unix/RwLock/TryRuns.antt =====
-- `try_read` and `try_write` of src/sys/unix/rwlock.rs as runs of their own steps, with no other
-- thread between them.
use pinned_sync.Base.{
  ℕ, ◌≡◌, refl, inl, inr, Bool, true, Option, none, some, arith, ◌==◌, Bool-cases, not, ◌&&◌, ◌||◌,
}
use pinned_sync.Effect.{Outcome, returned, panicked}
use pinned_sync.Std.{Thread}
use pinned_sync.Sys.Unix.Libc.{PthreadRwLock}
use pinned_sync.Sys.Unix.RwLock.{
  RwLock, ReadGuard, WriteGuard, read_guard, write_guard, check_init, unlock, try_read, try_write,
}
use pinned_sync.Sys.Unix.RwLock.Threads as Steps
use pinned_sync.Sys.Unix.RwLock.Threads.{
  Pc, outside, reading, read_granted, counting, read_held, read_dropping, uncounting,
  read_unlocking, writing, write_granted, readers_unknown, code_unknown, marking, write_held,
  write_dropping, flag_unknown, clearing, write_unlocking, refusing, failed, Move, enter_read,
  enter_write, not_initialized, rdlock_answers, tryrdlock_answers, test_read, count,
  assert_unlocked, uncount, unlock_read, wrlock_answers, trywrlock_answers, test_write,
  test_readers, test_anyway, mark, assert_no_readers, assert_locked, clear, unlock_write, refuse,
}
use pinned_sync.Sys.Unix.RwLock.Runs.{
  Run, stop, go, Ran, step, ran, check_cases, code_of_unlock, unlocked, place_after, refuse-Run,
}

-- Where a call of `try_read` ends.
abbrev pub has_read : Option ReadGuard → Pc
has_read none = outside
has_read (some _) = read_held

-- Where a call of `try_write` ends.
abbrev pub has_write : Option WriteGuard → Pc
has_write none = outside
has_write (some _) = write_held

module _ (api : PthreadRwLock) (debug : Bool) (th : Thread) (m : RwLock api debug) where
  abbrev TryReadRan : Outcome (Option ReadGuard) × RwLock api debug → Type 0
  TryReadRan = Ran api debug th.id m outside has_read (reading true)

  module _ (ok : check_init api debug m ≡ (returned tt, m)) where
    abbrev tried_read : RwLock api debug
    tried_read = record m { lock = (api.tryrdlock th.id m.lock).1 }

    abbrev read_code : ℕ
    read_code = (api.tryrdlock th.id m.lock).0

    read_with :
        {m'' : RwLock api debug} {q' : Pc} (q : Pc)
        → Steps.after_tryrdlock api debug read_code ≡ q
        → Run api debug th.id tried_read q m'' q'
        → Run api debug th.id m outside m'' q'
    read_with q e run =
        go (enter_read true ok) (step api debug th.id q (tryrdlock_answers refl) e run)

    refused_read-Ran :
        (read_code == 0) ≡ true → m.write_locked ≡ true → TryReadRan (try_read api debug th m)
    unfolding try_read unlock
    refused_read-Ran z set =
        elim (Bool-cases (debug && not (code_of_unlock api debug th.id tried_read == 0))) [
          | inl fails ↦
              ran api debug th.id _ _ panicked (ground arith)
                (read_with (read_granted true) (ground arith) (
                  step api debug th.id (refusing true) test_read (ground arith)
                    (refuse-Run api debug th.id tried_read true failed (ground arith))))
                (inr refl)
          | inr passes ↦
              ran api debug th.id _ _ (returned none) (ground arith)
                (read_with (read_granted true) (ground arith) (
                  step api debug th.id (refusing true) test_read (ground arith)
                    (refuse-Run api debug th.id tried_read true outside (ground arith))))
                refl
        ]

    read_tried-Ran : TryReadRan (try_read api debug th m)
    unfolding try_read
    read_tried-Ran = elim (Bool-cases (read_code == 0)) [
      | inl z ↦ elim (Bool-cases m.write_locked) [
        | inl set ↦ refused_read-Ran z set
        | inr unset ↦
            ran api debug th.id _ _ (returned (some read_guard)) (ground arith)
              (read_with (read_granted true) (ground arith)
                (step api debug th.id counting test_read (ground arith) (go count stop)))
              refl
      ]
      | inr other ↦
          ran api debug th.id _ _ (returned none) (ground arith)
            (read_with outside (ground arith) stop) refl
    ]

  pub try_read-Ran : TryReadRan (try_read api debug th m)
  unfolding try_read
  try_read-Ran = elim (check_cases api debug m) [
    | inl ok ↦ read_tried-Ran ok
    | inr fails ↦
        ran api debug th.id _ _ panicked (ground arith) (go (not_initialized fails) stop) (inr refl)
  ]

  abbrev TryWriteRan : Outcome (Option WriteGuard) × RwLock api debug → Type 0
  TryWriteRan = Ran api debug th.id m outside has_write (writing true)

  module _ (ok : check_init api debug m ≡ (returned tt, m)) where
    abbrev tried_write : RwLock api debug
    tried_write = record m { lock = (api.trywrlock th.id m.lock).1 }

    abbrev write_code : ℕ
    write_code = (api.trywrlock th.id m.lock).0

    write_with :
        {m'' : RwLock api debug} {q' : Pc} (q : Pc)
        → Steps.after_trywrlock api debug write_code ≡ q
        → Run api debug th.id tried_write q m'' q'
        → Run api debug th.id m outside m'' q'
    write_with q e run =
        go (enter_write true ok) (step api debug th.id q (trywrlock_answers refl) e run)

    refused_write-Ran :
        (write_code == 0) ≡ true
        → (m.write_locked || not (m.num_readers == 0)) ≡ true
        → ((q : Pc)
            → place_after api debug th.id tried_write ≡ q
            → Run api debug th.id tried_write
                (write_granted true)
                (unlocked api debug th.id tried_write)
                q)
        → TryWriteRan (try_write api debug th m)
    unfolding try_write unlock
    refused_write-Ran z set run =
        elim (Bool-cases (debug && not (code_of_unlock api debug th.id tried_write == 0))) [
          | inl fails ↦
              ran api debug th.id _ _ panicked (ground arith)
                (write_with (write_granted true) (ground arith) (run failed (ground arith)))
                (inr refl)
          | inr passes ↦
              ran api debug th.id _ _ (returned none) (ground arith)
                (write_with (write_granted true) (ground arith) (run outside (ground arith))) refl
        ]

    tried_write-Ran : TryWriteRan (try_write api debug th m)
    unfolding try_write
    tried_write-Ran = elim (Bool-cases (write_code == 0)) [
      | inl z ↦ elim (Bool-cases m.write_locked) [
        | inl set ↦ refused_write-Ran z (ground arith) (λ q e.
            step api debug th.id (refusing true) test_write (ground arith)
              (refuse-Run api debug th.id tried_write true q e))
        | inr unset ↦ elim (Bool-cases (m.num_readers == 0)) [
          | inl alone ↦
              ran api debug th.id _ _ (returned (some write_guard)) (ground arith)
                (write_with (write_granted true) (ground arith) (
                  step api debug th.id (readers_unknown true) test_write (ground arith)
                    (step api debug th.id marking test_readers (ground arith) (go mark stop))))
                refl
          | inr readers ↦ refused_write-Ran z (ground arith) (λ q e.
              step api debug th.id (readers_unknown true) test_write (ground arith) (
                step api debug th.id (refusing true) test_readers (ground arith)
                  (refuse-Run api debug th.id tried_write true q e)))
        ]
      ]
      | inr other ↦
          ran api debug th.id _ _ (returned none) (ground arith)
            (write_with outside (ground arith) stop) refl
    ]

  pub try_write-Ran : TryWriteRan (try_write api debug th m)
  unfolding try_write
  try_write-Ran = elim (check_cases api debug m) [
    | inl ok ↦ tried_write-Ran ok
    | inr fails ↦
        ran api debug th.id _ _ panicked (ground arith) (go (not_initialized fails) stop) (inr refl)
  ]
