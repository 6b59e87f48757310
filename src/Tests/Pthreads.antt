-- ===== src/Tests/Pthreads.antt =====
-- A mutex and a read-write lock that behave as POSIX says, for the calls of src/sys/unix.
use pinned_sync.Base.{
  ℕ, zero, suc, ◌≡◌, ◌≢◌, refl, ◌⊎◌, inl, Bool, true, false, Option, none, some, arith, ◌-◌,
}
use pinned_sync.Sys.Unix.Libc.{PthreadMutex, PosixMutex, PthreadRwLock, PosixRwLock, GrantsRightly}

abbrev pub take : ℕ → Option ℕ → Option (ℕ × Option ℕ)
take t none = some (0, some t)
take t (some u) = none

-- A mutex is its owner.
abbrev pub pthread_mutex : PthreadMutex
pthread_mutex = record {
  Lock = Option ℕ;
  Attr = Bool;
  Kind = Bool;
  normal = true;
  mutexattr_init = λ a. (0, some false);
  mutexattr_settype = λ k a. (0, some k);
  mutexattr_destroy = λ a. (0, none);
  mutex_init = λ a l. (0, some none);
  mutex_lock = take;
  mutex_unlock = λ t l. (0, none);
}

pub lock_unowned :
    (t : ℕ) (l : Option ℕ) → l ≡ none → (l' : Option ℕ) × (take t l ≡ some (0, l')) × (l' ≡ some t)
lock_unowned t none e = (some t, refl, refl)
lock_unowned t (some u) e = cc

pub lock_owned : (t u : ℕ) (l : Option ℕ) → l ≡ some u → take t l ≡ none
lock_owned t u none e = cc
lock_owned t u (some v) e = refl

abbrev pub posix_mutex : PosixMutex pthread_mutex
posix_mutex = record {
  fresh_attr = false;
  normal_attr = true;
  fresh_lock = none;
  owner = λ l. l;
  attr_init = refl;
  attr_settype = refl;
  attr_destroy = λ a. refl;
  lock_init = refl;
  fresh_unowned = refl;
  lock_unowned = lock_unowned;
  lock_owned = lock_owned;
  unlock_owned = λ t l e. (none, refl, refl);
}

-- A read-write lock is its number of readers and its writer.
pub record Rw : Type 0 where
  pub readers : ℕ
  pub writer : Option ℕ

abbrev free_rw : Rw
free_rw = record { readers = 0; writer = none }

abbrev try_rd : ℕ → Option ℕ → ℕ × Rw
try_rd c none = (0, record { readers = suc c; writer = none })
try_rd c (some u) = (16, record { readers = c; writer = some u })

abbrev rd : ℕ → Option ℕ → Option (ℕ × Rw)
rd c none = some (0, record { readers = suc c; writer = none })
rd c (some u) = none

abbrev try_wr : ℕ → ℕ → Option ℕ → ℕ × Rw
try_wr t zero none = (0, record { readers = 0; writer = some t })
try_wr t (suc c) none = (16, record { readers = suc c; writer = none })
try_wr t c (some u) = (16, record { readers = c; writer = some u })

abbrev wr : ℕ → ℕ → Option ℕ → Option (ℕ × Rw)
wr t zero none = some (0, record { readers = 0; writer = some t })
wr t (suc c) none = none
wr t c (some u) = none

abbrev give_back : ℕ → Option ℕ → ℕ × Rw
give_back c none = (0, record { readers = c - 1; writer = none })
give_back c (some u) = (0, record { readers = 0; writer = none })

abbrev pub pthread_rw_lock : PthreadRwLock
pthread_rw_lock = record {
  Lock = Rw;
  initializer = free_rw;
  eagain = 11;
  edeadlk = 35;
  tryrdlock = λ t l. try_rd l.readers l.writer;
  rdlock = λ t l. rd l.readers l.writer;
  trywrlock = λ t l. try_wr t l.readers l.writer;
  wrlock = λ t l. wr t l.readers l.writer;
  unlock = λ t l. give_back l.readers l.writer;
}

rdlock_shared :
    (t : ℕ) (l : Rw)
    → l.writer ≡ none
    → ((l' : Rw) × (rd l.readers l.writer ≡ some (0, l'))
        × (l'.readers ≡ suc l.readers)
        × (l'.writer ≡ none))
      ⊎ (rd l.readers l.writer ≡ some (11, l))
rdlock_shared t l e =
    inl (record { readers = suc l.readers; writer = none }, ground arith, refl, refl)

wrlock_free :
    (t : ℕ) (l : Rw)
    → l.readers ≡ 0
    → l.writer ≡ none
    → (l' : Rw) × (wr t l.readers l.writer ≡ some (0, l')) × (l'.readers ≡ 0) × (l'.writer ≡ some t)
wrlock_free t l e f = (record { readers = 0; writer = some t }, ground arith, refl, refl)

trywrlock_free :
    (t : ℕ) (l : Rw)
    → l.readers ≡ 0
    → l.writer ≡ none
    → (l' : Rw) × (try_wr t l.readers l.writer ≡ (0, l')) × (l'.readers ≡ 0) × (l'.writer ≡ some t)
trywrlock_free t l e f = (record { readers = 0; writer = some t }, ground arith, refl, refl)

wrlock_waits : (t c : ℕ) (w : Option ℕ) → (c ≢ 0) ⊎ (w ≢ none) → wr t c w ≡ none
wrlock_waits t zero none h = ground arith
wrlock_waits t (suc c) none h = refl
wrlock_waits t c (some u) h = ground arith

trywrlock_refuses :
    (t c : ℕ) (w : Option ℕ)
    → (c ≢ 0) ⊎ (w ≢ none)
    → try_wr t c w ≡ (16, record { readers = c; writer = w })
trywrlock_refuses t zero none h = ground arith
trywrlock_refuses t (suc c) none h = refl
trywrlock_refuses t c (some u) h = ground arith

pub posix_rw_lock : PosixRwLock pthread_rw_lock
posix_rw_lock = record {
  readers = λ l. l.readers;
  writer = λ l. l.writer;
  again = λ e. absurd (omega arith);
  deadlk = λ e. absurd (omega arith);
  distinct = λ e. absurd (omega arith);
  fresh = (refl, refl);
  rdlock_shared = rdlock_shared;
  rdlock_exclusive = λ t u l e. inl (ground arith);
  tryrdlock_shared =
      λ t l e. inl (record { readers = suc l.readers; writer = none }, ground arith, refl, refl);
  tryrdlock_exclusive = λ t u l e. inl (16, (λ q. absurd (omega arith)), ground arith);
  wrlock_free = wrlock_free;
  wrlock_busy = λ t l h. inl (wrlock_waits t l.readers l.writer h);
  trywrlock_free = trywrlock_free;
  trywrlock_busy =
      λ t l h. inl (16, (λ q. absurd (omega arith)), trywrlock_refuses t l.readers l.writer h);
  unlock_shared = λ t c l e f. (record { readers = c; writer = none }, ground arith, refl, refl);
  unlock_exclusive = λ t l e. (free_rw, ground arith, refl, refl);
}

pub grants_rightly : GrantsRightly pthread_rw_lock posix_rw_lock
unfolding posix_rw_lock
grants_rightly = record {
  rdlock_granted = λ t l l' e. ground arith;
  tryrdlock_granted = λ t l l' e. ground arith;
  wrlock_granted = λ t l l' e. ground arith;
  trywrlock_granted = λ t l l' e. ground arith;
}
