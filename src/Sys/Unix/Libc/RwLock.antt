-- ===== src/Sys/Unix/Libc/RwLock.antt =====
-- `pthread_rwlock_t`: the calls of src/sys/unix/rwlock.rs, and what they may answer.
use pinned_sync.Base.{ℕ, suc, ◌≡◌, ◌≢◌, ◌⊎◌, Option, none, some}

pub record PthreadRwLock : Type 1 where
  pub Lock : Type 0  -- pthread_rwlock_t
  pub initializer : Lock  -- PTHREAD_RWLOCK_INITIALIZER
  pub eagain : ℕ
  pub edeadlk : ℕ
  pub tryrdlock : ℕ → Lock → ℕ × Lock
  pub rdlock : ℕ → Lock → Option (ℕ × Lock)
  pub trywrlock : ℕ → Lock → ℕ × Lock
  pub wrlock : ℕ → Lock → Option (ℕ × Lock)
  pub unlock : ℕ → Lock → ℕ × Lock

-- A lock has readers or a writer. A blocking call that cannot be granted waits, or finds the
-- deadlock; or, with the C libraries that src/sys/unix/rwlock.rs guards against, it is granted
-- though it should not be, and giving the lock back undoes that.
module _ (api : PthreadRwLock) where
  open api use {Lock, initializer, eagain, edeadlk, tryrdlock, rdlock, trywrlock, wrlock, unlock}

  abbrev pub WronglyGranted : ℕ → Lock → Lock → Type 0
  WronglyGranted t l l' = unlock t l' ≡ (0, l)

  pub record PosixRwLock : Type 0 where
    pub readers : Lock → ℕ
    pub writer : Lock → Option ℕ
    pub again : eagain ≢ 0
    pub deadlk : edeadlk ≢ 0
    pub distinct : eagain ≢ edeadlk
    pub fresh : (readers initializer ≡ 0) × (writer initializer ≡ none)
    pub rdlock_shared :
        (t : ℕ) (l : Lock)
        → writer l ≡ none
        → ((l' : Lock) × (rdlock t l ≡ some (0, l'))
            × (readers l' ≡ suc (readers l))
            × (writer l' ≡ none))
          ⊎ (rdlock t l ≡ some (eagain, l))
    pub rdlock_exclusive :
        (t u : ℕ) (l : Lock)
        → writer l ≡ some u
        → (rdlock t l ≡ none)
          ⊎ (rdlock t l ≡ some (edeadlk, l))
          ⊎ ((l' : Lock) × (rdlock t l ≡ some (0, l')) × WronglyGranted t l l')
    pub tryrdlock_shared :
        (t : ℕ) (l : Lock)
        → writer l ≡ none
        → ((l' : Lock) × (tryrdlock t l ≡ (0, l'))
            × (readers l' ≡ suc (readers l))
            × (writer l' ≡ none))
          ⊎ ((code : ℕ) × (code ≢ 0) × (tryrdlock t l ≡ (code, l)))
    pub tryrdlock_exclusive :
        (t u : ℕ) (l : Lock)
        → writer l ≡ some u
        → ((code : ℕ) × (code ≢ 0) × (tryrdlock t l ≡ (code, l)))
          ⊎ ((l' : Lock) × (tryrdlock t l ≡ (0, l')) × WronglyGranted t l l')
    pub wrlock_free :
        (t : ℕ) (l : Lock)
        → readers l ≡ 0
        → writer l ≡ none
        → (l' : Lock) × (wrlock t l ≡ some (0, l')) × (readers l' ≡ 0) × (writer l' ≡ some t)
    pub wrlock_busy :
        (t : ℕ) (l : Lock)
        → (readers l ≢ 0) ⊎ (writer l ≢ none)
        → (wrlock t l ≡ none)
          ⊎ (wrlock t l ≡ some (edeadlk, l))
          ⊎ ((l' : Lock) × (wrlock t l ≡ some (0, l')) × WronglyGranted t l l')
    pub trywrlock_free :
        (t : ℕ) (l : Lock)
        → readers l ≡ 0
        → writer l ≡ none
        → (l' : Lock) × (trywrlock t l ≡ (0, l')) × (readers l' ≡ 0) × (writer l' ≡ some t)
    pub trywrlock_busy :
        (t : ℕ) (l : Lock)
        → (readers l ≢ 0) ⊎ (writer l ≢ none)
        → ((code : ℕ) × (code ≢ 0) × (trywrlock t l ≡ (code, l)))
          ⊎ ((l' : Lock) × (trywrlock t l ≡ (0, l')) × WronglyGranted t l l')
    pub unlock_shared :
        (t c : ℕ) (l : Lock)
        → readers l ≡ suc c
        → writer l ≡ none
        → (l' : Lock) × (unlock t l ≡ (0, l')) × (readers l' ≡ c) × (writer l' ≡ none)
    pub unlock_exclusive :
        (t : ℕ) (l : Lock)
        → writer l ≡ some t
        → (l' : Lock) × (unlock t l ≡ (0, l')) × (readers l' ≡ 0) × (writer l' ≡ none)

  -- The C library grants no lock that it should not.
  pub record GrantsRightly (posix : PosixRwLock) : Type 0 where
    pub rdlock_granted : (t : ℕ) (l l' : Lock) → rdlock t l ≡ some (0, l') → posix.writer l ≡ none
    pub tryrdlock_granted : (t : ℕ) (l l' : Lock) → tryrdlock t l ≡ (0, l') → posix.writer l ≡ none
    pub wrlock_granted :
        (t : ℕ) (l l' : Lock)
        → wrlock t l ≡ some (0, l')
        → (posix.readers l ≡ 0) × (posix.writer l ≡ none)
    pub trywrlock_granted :
        (t : ℕ) (l l' : Lock)
        → trywrlock t l ≡ (0, l')
        → (posix.readers l ≡ 0) × (posix.writer l ≡ none)
