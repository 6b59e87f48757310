-- ===== src/Sys/Unix/RwLock/WriterRuns.antt =====
-- The calls of writers in src/sys/unix/rwlock.rs as runs of their own steps, with no other thread
-- between them.
use pinned_sync.Base.{
  ℕ, ◌≡◌, refl, ◌≢◌, inl, inr, Bool, true, false, some, arith, ◌==◌, Bool-cases, Option-cases,
}
use pinned_sync.Effect.{Outcome, returned, panicked, blocked}
use pinned_sync.Std.{Thread}
use pinned_sync.Sys.Unix.Libc.{PthreadRwLock}
use pinned_sync.Sys.Unix.RwLock.{
  RwLock, WriteGuard, write_guard, check_init, unlock, write, drop_write,
}
use pinned_sync.Sys.Unix.RwLock.Threads as Steps
use pinned_sync.Sys.Unix.RwLock.Threads.{
  Pc, outside, reading, read_granted, counting, read_held, read_dropping, uncounting,
  read_unlocking, writing, write_granted, readers_unknown, code_unknown, marking, write_held,
  write_dropping, flag_unknown, clearing, write_unlocking, refusing, failed, Move, enter_read,
  enter_write, not_initialized, rdlock_answers, tryrdlock_answers, test_read, count,
  assert_unlocked, uncount, unlock_read, wrlock_answers, trywrlock_answers, test_write,
  test_readers, test_anyway, mark, assert_no_readers, assert_locked, clear, unlock_write, refuse,
}
use pinned_sync.Sys.Unix.RwLock.Runs.{
  Run, stop, go, Ran, step, ran, check_cases, code_of_unlock, unlocked, place_after, place_cases,
  refuse-Run,
}

module _ (api : PthreadRwLock) (debug : Bool) (th : Thread) (m : RwLock api debug) where
  clear-Run :
      (p : Pc)
      → place_after api debug th.id m ≡ p
      → Run api debug th.id m clearing
          (record (unlocked api debug th.id m) { write_locked = false })
          p
  clear-Run p e = go clear (step api debug th.id p (unlock_write refl) e stop)

  abbrev DropRan : Outcome (Unit {0}) × RwLock api debug → Type 0
  DropRan = Ran api debug th.id m write_held (λ _. outside) outside

  -- The assertions of `drop`, which only a build with `debug_assertions` has.
  asserted-Run :
      {m' : RwLock api debug} {q : Pc}
      → debug ≡ true
      → (m.num_readers == 0) ≡ true
      → m.write_locked ≡ true
      → Run api debug th.id m clearing m' q
      → Run api debug th.id m write_held m' q
  asserted-Run on alone set run =
      step api debug th.id write_dropping Steps.drop_write (ground arith) (
        step api debug th.id flag_unknown assert_no_readers (ground arith)
          (step api debug th.id clearing assert_locked (ground arith) run))

  drop_asserted-Ran : debug ≡ true → DropRan (drop_write api debug th write_guard m)
  unfolding drop_write unlock
  drop_asserted-Ran on = elim (Bool-cases (m.num_readers == 0)) [
    | inl alone ↦ elim (Bool-cases m.write_locked) [
      | inl set ↦ elim (Bool-cases (code_of_unlock api debug th.id m == 0)) [
        | inl ok ↦
            ran api debug th.id _ _ (returned tt) (ground arith)
              (asserted-Run on alone set (clear-Run outside (ground arith))) refl
        | inr not_ok ↦
            ran api debug th.id _ _ panicked (ground arith)
              (asserted-Run on alone set (clear-Run failed (ground arith))) (inr refl)
      ]
      | inr unset ↦
          ran api debug th.id _ _ panicked (ground arith)
            (step api debug th.id write_dropping Steps.drop_write (ground arith) (
              step api debug th.id flag_unknown assert_no_readers (ground arith)
                (step api debug th.id failed assert_locked (ground arith) stop)))
            (inr refl)
    ]
    | inr readers ↦
        ran api debug th.id _ _ panicked (ground arith)
          (step api debug th.id write_dropping Steps.drop_write (ground arith)
            (step api debug th.id failed assert_no_readers (ground arith) stop))
          (inr refl)
  ]

  -- Dropping a write guard.
  pub drop_write-Ran : DropRan (drop_write api debug th write_guard m)
  unfolding drop_write unlock
  drop_write-Ran = elim (Bool-cases debug) [
    | inl on ↦ drop_asserted-Ran on
    | inr off ↦
        ran api debug th.id _ _ (returned tt) (ground arith)
          (step api debug th.id clearing Steps.drop_write (ground arith)
            (clear-Run outside (ground arith)))
          refl
  ]

  abbrev WriteRan : Outcome WriteGuard × RwLock api debug → Type 0
  WriteRan = Ran api debug th.id m outside (λ _. write_held) (writing false)

  module _ (ok : check_init api debug m ≡ (returned tt, m)) (code : ℕ) (l : api.Lock)
      (answer : api.wrlock th.id m.lock ≡ some (code, l)) where
    abbrev taken : RwLock api debug
    taken = record m { lock = l }

    write_with :
        {m'' : RwLock api debug} {q' : Pc} (q : Pc)
        → Steps.after_wrlock api debug code ≡ q
        → Run api debug th.id taken q m'' q'
        → Run api debug th.id m outside m'' q'
    write_with q e run =
        go (enter_write false ok) (step api debug th.id q (wrlock_answers answer) e run)

    write_granted-Ran :
        (code == api.edeadlk) ≡ false → (code == 0) ≡ true → WriteRan (write api debug th m)
    unfolding write unlock
    write_granted-Ran d z = elim (Bool-cases m.write_locked) [
      | inl set ↦
          ran api debug th.id _ _ panicked (ground arith)
            (write_with (write_granted false) (ground arith) (
              step api debug th.id (refusing false) test_write (ground arith)
                (refuse-Run api debug th.id taken false _ refl)))
            (place_cases api debug th.id taken)
      | inr unset ↦ elim (Bool-cases (m.num_readers == 0)) [
        | inl alone ↦
            ran api debug th.id _ _ (returned write_guard) (ground arith)
              (write_with (write_granted false) (ground arith) (
                step api debug th.id (readers_unknown false) test_write (ground arith)
                  (step api debug th.id marking test_readers (ground arith) (go mark stop))))
              refl
        | inr readers ↦
            ran api debug th.id _ _ panicked (ground arith)
              (write_with (write_granted false) (ground arith) (
                step api debug th.id (readers_unknown false) test_write (ground arith) (
                  step api debug th.id (refusing false) test_readers (ground arith)
                    (refuse-Run api debug th.id taken false _ refl))))
              (place_cases api debug th.id taken)
      ]
    ]

    write_other-Ran :
        (code == api.edeadlk) ≡ false → (code == 0) ≡ false → WriteRan (write api debug th m)
    unfolding write unlock
    write_other-Ran d z = elim (Bool-cases (m.num_readers == 0)) [
      | inl alone ↦ elim (Bool-cases debug) [
        | inl on ↦
            ran api debug th.id _ _ panicked (ground arith)
              (write_with code_unknown (ground arith)
                (step api debug th.id failed test_anyway (ground arith) stop))
              (inr refl)
        | inr off ↦
            ran api debug th.id _ _ (returned write_guard) (ground arith)
              (write_with code_unknown (ground arith)
                (step api debug th.id marking test_anyway (ground arith) (go mark stop)))
              refl
      ]
      | inr readers ↦
          ran api debug th.id _ _ panicked (ground arith)
            (write_with code_unknown (ground arith)
              (step api debug th.id outside test_anyway (ground arith) stop))
            (inl refl)
    ]

    write_answered-Ran : api.edeadlk ≢ 0 → WriteRan (write api debug th m)
    unfolding write
    write_answered-Ran deadlk = elim (Bool-cases (code == api.edeadlk)) [
      | inl deadlock ↦
          ran api debug th.id _ _ panicked (ground arith) (write_with outside (ground arith) stop)
            (inl refl)
      | inr no_deadlock ↦ elim (Bool-cases (code == 0)) [
        | inl z ↦ write_granted-Ran no_deadlock z
        | inr other ↦ write_other-Ran no_deadlock other
      ]
    ]

  pub write-Ran : api.edeadlk ≢ 0 → WriteRan (write api debug th m)
  unfolding write
  write-Ran deadlk = elim (check_cases api debug m) [
    | inl ok ↦ elim (Option-cases (api.wrlock th.id m.lock)) [
      | inl waits ↦
          ran api debug th.id _ _ blocked (ground arith) (go (enter_write false ok) stop) refl
      | inr ((code, l), answer) ↦ write_answered-Ran ok code l answer deadlk
    ]
    | inr fails ↦
        ran api debug th.id _ _ panicked (ground arith) (go (not_initialized fails) stop) (inr refl)
  ]
