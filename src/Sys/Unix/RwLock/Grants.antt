-- ===== src/Sys/Unix/RwLock/Grants.antt =====
-- What the calls of pthreads in src/sys/unix/rwlock.rs answer, and do, where the C library grants
-- no lock when it should not.
use pinned_sync.Base.{ℕ, suc, ◌≡◌, ◌≢◌, ◌⊎◌, inl, inr, none, some, arith, Option-cases}
use pinned_sync.Sys.Unix.Libc.{PthreadRwLock, PosixRwLock, GrantsRightly}

module _ (api : PthreadRwLock) (posix : PosixRwLock api) (right : GrantsRightly api posix) where
  open api use {Lock, eagain, edeadlk, tryrdlock, rdlock, trywrlock, wrlock, unlock}
  open posix use {readers, writer}

  -- The lock was granted to a reader, and to thread `t` as the writer.
  abbrev pub Shared : Lock → Lock → Type 0
  Shared l l' = (writer l ≡ none) × (readers l' ≡ suc (readers l)) × (writer l' ≡ none)

  abbrev pub Exclusive : ℕ → Lock → Lock → Type 0
  Exclusive t l l' = (readers l ≡ 0) × (writer l ≡ none) × (readers l' ≡ 0) × (writer l' ≡ some t)

  free_or_busy :
      (l : Lock) → ((readers l ≡ 0) × (writer l ≡ none)) ⊎ ((readers l ≢ 0) ⊎ (writer l ≢ none))
  free_or_busy l = ground arith

  module _ (t code : ℕ) (l l' : Lock) where
    pub rdlock_lem :
        rdlock t l ≡ some (code, l')
        → ((code ≡ 0) × Shared l l') ⊎ (((code ≡ eagain) ⊎ (code ≡ edeadlk)) × (l' ≡ l))
    rdlock_lem e = elim (Option-cases (writer l)) [
      | inl free ↦ ground (arith, posix.rdlock_shared t l free)
      | inr (u, taken) ↦
          ground (arith, posix.rdlock_exclusive t u l taken, right.rdlock_granted t l l')
    ]

    pub tryrdlock_lem :
        tryrdlock t l ≡ (code, l') → ((code ≡ 0) × Shared l l') ⊎ ((code ≢ 0) × (l' ≡ l))
    tryrdlock_lem e = elim (Option-cases (writer l)) [
      | inl free ↦ ground (arith, posix.tryrdlock_shared t l free)
      | inr (u, taken) ↦
          ground (arith, posix.tryrdlock_exclusive t u l taken, right.tryrdlock_granted t l l')
    ]

    pub wrlock_lem :
        wrlock t l ≡ some (code, l')
        → ((code ≡ 0) × Exclusive t l l') ⊎ ((code ≡ edeadlk) × (l' ≡ l))
    wrlock_lem e = elim (free_or_busy l) [
      | inl (e0, e1) ↦ ground (arith, posix.wrlock_free t l e0 e1)
      | inr busy ↦ ground (arith, posix.wrlock_busy t l busy, right.wrlock_granted t l l')
    ]

    pub trywrlock_lem :
        trywrlock t l ≡ (code, l') → ((code ≡ 0) × Exclusive t l l') ⊎ ((code ≢ 0) × (l' ≡ l))
    trywrlock_lem e = elim (free_or_busy l) [
      | inl (e0, e1) ↦ ground (arith, posix.trywrlock_free t l e0 e1)
      | inr busy ↦ ground (arith, posix.trywrlock_busy t l busy, right.trywrlock_granted t l l')
    ]
