-- ===== src/Sys/Unix/RwLock/Changes.antt =====
-- Each step of a call of src/sys/unix/rwlock.rs is one of the changes that it should be, over a C
-- library that grants no lock when it should not.
use pinned_sync.Base.{
  ℕ, suc, ◌-◌, ◌≤◌, ◌<◌, ◌≡◌, refl, sym, subst, ap, ◌∙◌, ◌≢◌, inl, inr, Bool, true, none, arith,
  le-total, total_mono,
}
use pinned_sync.SysCommon.InitAssert
use pinned_sync.Effect.{returned, panicked}
use pinned_sync.Sys.Unix.Libc.{PthreadRwLock, PosixRwLock, GrantsRightly}
use pinned_sync.Sys.Unix.RwLock.{RwLock, check_init}
use pinned_sync.Sys.Unix.RwLock.Threads.{
  Pc, reading, read_held, read_unlocking, writing, write_held, write_unlocking, Move, enter_read,
  enter_write, not_initialized, rdlock_answers, tryrdlock_answers, test_read, count, drop_read,
  assert_unlocked, uncount, unlock_read, wrlock_answers, trywrlock_answers, test_write,
  test_readers, test_anyway, mark, drop_write, assert_no_readers, assert_locked, clear,
  unlock_write, refuse,
}
use pinned_sync.Sys.Unix.RwLock.Standing.{
  Standing, absent, sharing, counted, owning, marked, astray, standing, shares, counts, owns,
  Change, none_changed, share_granted, was_counted, was_uncounted, share_returned, lock_granted,
  was_marked, was_cleared, lock_returned, Inv,
}
use pinned_sync.Sys.Unix.RwLock.Grants.{
  Shared, Exclusive, rdlock_lem, tryrdlock_lem, wrlock_lem, trywrlock_lem,
}

counts-le-shares : (s : Standing) → counts s ≤ shares s
counts-le-shares s = ground arith

module _ (api : PthreadRwLock) (debug : Bool) (posix : PosixRwLock api)
    (right : GrantsRightly api posix) where
  open api use {Lock, eagain, edeadlk, unlock}
  open posix use {readers, writer}

  module _ (t : ℕ) (m : RwLock api debug) where
    -- A step to a place where a call should come, and the change that it is.
    abbrev pub Result : Standing → RwLock api debug → Pc → Type 0
    Result s m' p = (standing p ≢ astray) × Change api debug posix t m s m' (standing p)

    result :
        {s s' : Standing} {m' : RwLock api debug} (p : Pc)
        → standing p ≡ s'
        → s' ≢ astray
        → Change api debug posix t m s m' s'
        → Result s m' p
    result {s} {s'} {m'} p e ne d =
        (λ q. ne (sym e ∙ q), subst (Change api debug posix t m s m') (sym e) d)

    refused :
        (l : Lock) (p : Pc)
        → l ≡ m.lock
        → standing p ≡ absent
        → Result absent (record m { lock = l }) p
    refused l p e q = result p q (λ z. cc) (none_changed (ap (λ x. record m { lock = x }) e))

    shared :
        (l : Lock) (p : Pc)
        → Shared api posix right m.lock l
        → standing p ≡ sharing
        → Result absent (record m { lock = l }) p
    shared l p (e, f, g) q = result p q (λ z. cc) (share_granted e f g)

    exclusive :
        (l : Lock) (p : Pc)
        → Exclusive api posix right t m.lock l
        → standing p ≡ owning
        → Result absent (record m { lock = l }) p
    exclusive l p (e, f, g, h) q = result p q (λ z. cc) (lock_granted e f g h)

    stays : (s : Standing) (p : Pc) → standing p ≡ s → s ≢ astray → Result s m p
    stays s p e ne = result p e ne (none_changed refl)

  module _ {who : ℕ → ℕ} {k : ℕ} {m : RwLock api debug} {at : ℕ → Standing}
      (inv : Inv api debug posix who k m at) (i : ℕ) (lt : i < k) where
    open inv use {ready, number, number_counted, apart, owner, flag, unflagged}

    check_lem : {m' : RwLock api debug} → check_init api debug m ≡ (returned tt, m') → m' ≡ m
    unfolding check_init InitAssert.get
    check_lem e = ground arith

    check_passes : {m' : RwLock api debug} → check_init api debug m ≢ (panicked, m')
    unfolding check_init InitAssert.get
    check_passes e = ground (arith, ready)

    none_owns : shares (at i) ≡ 1 → writer m.lock ≡ none
    none_owns h = ground (arith, apart, number, le-total shares k at i lt)

    no_readers : owns (at i) ≡ true → m.num_readers ≡ 0
    no_readers h = ground (
      arith,
      apart,
      owner i,
      number,
      number_counted,
      total_mono counts shares k at (λ j. counts-le-shares (at j)),
    )

    unlock_shared_lem :
        {code : ℕ} {l : Lock}
        → shares (at i) ≡ 1
        → unlock (who i) m.lock ≡ (code, l)
        → (code ≡ 0) × (suc (readers l) ≡ readers m.lock) × (writer l ≡ none)
    unlock_shared_lem h e = ground (
      arith,
      posix.unlock_shared (who i) (readers m.lock - 1) m.lock,
      none_owns,
      number,
      le-total shares k at i lt,
    )

    unlock_exclusive_lem :
        {code : ℕ} {l : Lock}
        → owns (at i) ≡ true
        → unlock (who i) m.lock ≡ (code, l)
        → (code ≡ 0) × (readers l ≡ 0) × (writer l ≡ none)
    unlock_exclusive_lem h e = ground (arith, posix.unlock_exclusive (who i) m.lock, owner i)

    -- In a state that agrees, every step is one of the changes.
    pub Move-Change :
        {p p' : Pc} {m' : RwLock api debug}
        → at i ≡ standing p
        → Move api debug (who i) m p m' p'
        → Result (who i) m (standing p) m' p'
    Move-Change e (enter_read tries c) =
        result _ m (reading tries) refl (λ z. cc) (none_changed (check_lem c))
    Move-Change e (enter_write tries c) =
        result _ m (writing tries) refl (λ z. cc) (none_changed (check_lem c))
    Move-Change e (not_initialized c) = absurd (check_passes c)
    Move-Change e (rdlock_answers {code} {l} c) =
        elim (rdlock_lem api posix right (who i) code m.lock l c) [
          | inl (zero_code, grant) ↦
              shared _ m l _ grant (ground (arith, posix.again, posix.deadlk))
          | inr (other, same) ↦ refused _ m l _ same (ground arith)
        ]
    Move-Change e (tryrdlock_answers {code} {l} c) =
        elim (tryrdlock_lem api posix right (who i) code m.lock l c) [
          | inl (zero_code, grant) ↦ shared _ m l _ grant (ground arith)
          | inr (other, same) ↦ refused _ m l _ same (ground arith)
        ]
    Move-Change e (test_read {tries}) =
        stays _ m sharing _ (ground (arith, none_owns, unflagged)) (λ z. cc)
    Move-Change e count = result _ m read_held refl (λ z. cc) was_counted
    Move-Change e drop_read = stays _ m counted _ (ground arith) (λ z. cc)
    Move-Change e assert_unlocked =
        stays _ m counted _ (ground (arith, none_owns, unflagged)) (λ z. cc)
    Move-Change e uncount = result _ m read_unlocking refl (λ z. cc) was_uncounted
    Move-Change e (unlock_read {code} {l} c) =
        let (ok, less, free) = unlock_shared_lem (ground arith) c in
        result _ m _ (ground arith) (λ z. cc) (share_returned less free)
    Move-Change e (wrlock_answers {code} {l} c) =
        elim (wrlock_lem api posix right (who i) code m.lock l c) [
          | inl (zero_code, grant) ↦ exclusive _ m l _ grant (ground (arith, posix.deadlk))
          | inr (other, same) ↦ refused _ m l _ same (ground arith)
        ]
    Move-Change e (trywrlock_answers {code} {l} c) =
        elim (trywrlock_lem api posix right (who i) code m.lock l c) [
          | inl (zero_code, grant) ↦ exclusive _ m l _ grant (ground arith)
          | inr (other, same) ↦ refused _ m l _ same (ground arith)
        ]
    Move-Change e (test_write {tries}) = stays _ m owning _ (ground (arith, flag i)) (λ z. cc)
    Move-Change e (test_readers {tries}) = stays _ m owning _ (ground (arith, no_readers)) (λ z. cc)
    Move-Change e test_anyway = absurd (inv.placed i e)
    Move-Change e mark = result _ m write_held refl (λ z. cc) was_marked
    Move-Change e drop_write = stays _ m marked _ (ground arith) (λ z. cc)
    Move-Change e assert_no_readers = stays _ m marked _ (ground (arith, no_readers)) (λ z. cc)
    Move-Change e assert_locked = stays _ m marked _ (ground (arith, flag i)) (λ z. cc)
    Move-Change e clear = result _ m write_unlocking refl (λ z. cc) was_cleared
    Move-Change e (unlock_write {code} {l} c) =
        let (ok, zero_readers, free) = unlock_exclusive_lem (ground arith) c in
        result _ m _ (ground arith) (λ z. cc) (lock_returned zero_readers free)
    Move-Change e (refuse c) = absurd (inv.placed i e)
