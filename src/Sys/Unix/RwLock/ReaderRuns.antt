-- ===== src/Sys/Unix/RwLock/ReaderRuns.antt =====
-- The calls of readers in src/sys/unix/rwlock.rs as runs of their own steps, with no other thread
-- between them.
use pinned_sync.Base.{
  ℕ, ◌+◌, ◌-◌, ◌%◌, ◌≡◌, refl, ◌≢◌, inl, inr, Bool, true, false, some, arith, ◌==◌, Bool-cases,
  Option-cases, usize_mod,
}
use pinned_sync.Effect.{Outcome, returned, panicked, blocked}
use pinned_sync.Std.{Thread}
use pinned_sync.Sys.Unix.Libc.{PthreadRwLock}
use pinned_sync.Sys.Unix.RwLock.{RwLock, ReadGuard, read_guard, check_init, unlock, read, drop_read}
use pinned_sync.Sys.Unix.RwLock.Threads as Steps
use pinned_sync.Sys.Unix.RwLock.Threads.{
  Pc, outside, reading, read_granted, counting, read_held, read_dropping, uncounting,
  read_unlocking, writing, write_granted, readers_unknown, code_unknown, marking, write_held,
  write_dropping, flag_unknown, clearing, write_unlocking, refusing, failed, Move, enter_read,
  enter_write, not_initialized, rdlock_answers, tryrdlock_answers, test_read, count,
  assert_unlocked, uncount, unlock_read, wrlock_answers, trywrlock_answers, test_write,
  test_readers, test_anyway, mark, assert_no_readers, assert_locked, clear, unlock_write, refuse,
}
use pinned_sync.Sys.Unix.RwLock.Runs.{
  Run, stop, go, Ran, step, ran, check_cases, code_of_unlock, unlocked, place_after, place_cases,
  refuse-Run,
}

module _ (api : PthreadRwLock) (debug : Bool) (th : Thread) (m : RwLock api debug) where
  uncount-Run :
      (p : Pc)
      → place_after api debug th.id m ≡ p
      → Run api debug th.id m uncounting
          (record (unlocked api debug th.id m) {
            num_readers = (m.num_readers + usize_mod - 1) % usize_mod;
          })
          p
  uncount-Run p e = go uncount (step api debug th.id p (unlock_read refl) e stop)

  abbrev DropRan : Outcome (Unit {0}) × RwLock api debug → Type 0
  DropRan = Ran api debug th.id m read_held (λ _. outside) outside

  -- Dropping a read guard.
  pub drop_read-Ran : DropRan (drop_read api debug th read_guard m)
  unfolding drop_read unlock
  drop_read-Ran = elim (Bool-cases debug) [
    | inl on ↦ elim (Bool-cases m.write_locked) [
      | inl set ↦
          ran api debug th.id _ _ panicked (ground arith)
            (step api debug th.id read_dropping Steps.drop_read (ground arith)
              (step api debug th.id failed assert_unlocked (ground arith) stop))
            (inr refl)
      | inr unset ↦ elim (Bool-cases (code_of_unlock api debug th.id m == 0)) [
        | inl ok ↦
            ran api debug th.id _ _ (returned tt) (ground arith)
              (step api debug th.id read_dropping Steps.drop_read (ground arith) (
                step api debug th.id uncounting assert_unlocked (ground arith)
                  (uncount-Run outside (ground arith))))
              refl
        | inr not_ok ↦
            ran api debug th.id _ _ panicked (ground arith)
              (step api debug th.id read_dropping Steps.drop_read (ground arith) (
                step api debug th.id uncounting assert_unlocked (ground arith)
                  (uncount-Run failed (ground arith))))
              (inr refl)
      ]
    ]
    | inr off ↦
        ran api debug th.id _ _ (returned tt) (ground arith)
          (step api debug th.id uncounting Steps.drop_read (ground arith)
            (uncount-Run outside (ground arith)))
          refl
  ]

  abbrev ReadRan : Outcome ReadGuard × RwLock api debug → Type 0
  ReadRan = Ran api debug th.id m outside (λ _. read_held) (reading false)

  module _ (ok : check_init api debug m ≡ (returned tt, m)) (code : ℕ) (l : api.Lock)
      (answer : api.rdlock th.id m.lock ≡ some (code, l)) where
    abbrev taken : RwLock api debug
    taken = record m { lock = l }

    read_with :
        {m'' : RwLock api debug} {q' : Pc} (q : Pc)
        → Steps.after_rdlock api debug code ≡ q
        → Run api debug th.id taken q m'' q'
        → Run api debug th.id m outside m'' q'
    read_with q e run =
        go (enter_read false ok) (step api debug th.id q (rdlock_answers answer) e run)

    read_granted-Ran :
        (code == api.eagain) ≡ false
        → (code == api.edeadlk) ≡ false
        → (code == 0) ≡ true
        → ReadRan (read api debug th m)
    unfolding read unlock
    read_granted-Ran a d z = elim (Bool-cases m.write_locked) [
      | inl set ↦
          ran api debug th.id _ _ panicked (ground arith)
            (read_with (read_granted false) (ground arith) (
              step api debug th.id (refusing false) test_read (ground arith)
                (refuse-Run api debug th.id taken false _ refl)))
            (place_cases api debug th.id taken)
      | inr unset ↦
          ran api debug th.id _ _ (returned read_guard) (ground arith)
            (read_with (read_granted false) (ground arith)
              (step api debug th.id counting test_read (ground arith) (go count stop)))
            refl
    ]

    read_other-Ran :
        (code == api.eagain) ≡ false
        → (code == api.edeadlk) ≡ false
        → (code == 0) ≡ false
        → ReadRan (read api debug th m)
    unfolding read unlock
    read_other-Ran a d z = elim (Bool-cases debug) [
      | inl on ↦
          ran api debug th.id _ _ panicked (ground arith) (read_with failed (ground arith) stop)
            (inr refl)
      | inr off ↦
          ran api debug th.id _ _ (returned read_guard) (ground arith)
            (read_with counting (ground arith) (go count stop)) refl
    ]

    read_answered-Ran : api.edeadlk ≢ 0 → ReadRan (read api debug th m)
    unfolding read
    read_answered-Ran deadlk = elim (Bool-cases (code == api.eagain)) [
      | inl again ↦
          ran api debug th.id _ _ panicked (ground arith) (read_with outside (ground arith) stop)
            (inl refl)
      | inr not_again ↦ elim (Bool-cases (code == api.edeadlk)) [
        | inl deadlock ↦
            ran api debug th.id _ _ panicked (ground arith) (read_with outside (ground arith) stop)
              (inl refl)
        | inr no_deadlock ↦ elim (Bool-cases (code == 0)) [
          | inl z ↦ read_granted-Ran not_again no_deadlock z
          | inr other ↦ read_other-Ran not_again no_deadlock other
        ]
      ]
    ]

  pub read-Ran : api.edeadlk ≢ 0 → ReadRan (read api debug th m)
  unfolding read
  read-Ran deadlk = elim (check_cases api debug m) [
    | inl ok ↦ elim (Option-cases (api.rdlock th.id m.lock)) [
      | inl waits ↦
          ran api debug th.id _ _ blocked (ground arith) (go (enter_read false ok) stop) refl
      | inr ((code, l), answer) ↦ read_answered-Ran ok code l answer deadlk
    ]
    | inr fails ↦
        ran api debug th.id _ _ panicked (ground arith) (go (not_initialized fails) stop) (inr refl)
  ]
