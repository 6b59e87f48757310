-- ===== src/Sys/Unix/Libc/Mutex.antt =====
-- The pthread calls that src/sys/unix makes, as parameters, and what POSIX says of them. A call
-- returns a code and the object as it leaves it; `none` as an object is memory not yet initialized.
use pinned_sync.Base.{ℕ, ◌≡◌, Option, none, some}

pub record PthreadMutex : Type 1 where
  pub Lock : Type 0  -- pthread_mutex_t
  pub Attr : Type 0  -- pthread_mutexattr_t
  pub Kind : Type 0
  pub normal : Kind  -- PTHREAD_MUTEX_NORMAL
  pub mutexattr_init : Option Attr → ℕ × Option Attr
  pub mutexattr_settype : Kind → Option Attr → ℕ × Option Attr
  pub mutexattr_destroy : Option Attr → ℕ × Option Attr
  pub mutex_init : Option Attr → Option Lock → ℕ × Option Lock
  -- By the thread that calls; `none` means that the call waits.
  pub mutex_lock : ℕ → Lock → Option (ℕ × Lock)
  pub mutex_unlock : ℕ → Lock → ℕ × Lock

-- A mutex of the normal kind, in a process that has the resources for it.
module _ (api : PthreadMutex) where
  open api use {
    Lock, Attr, normal, mutexattr_init, mutexattr_settype, mutexattr_destroy, mutex_init,
    mutex_lock, mutex_unlock,
  }

  pub record PosixMutex : Type 0 where
    pub fresh_attr : Attr
    pub normal_attr : Attr
    pub fresh_lock : Lock
    pub owner : Lock → Option ℕ
    pub attr_init : mutexattr_init none ≡ (0, some fresh_attr)
    pub attr_settype : mutexattr_settype normal (some fresh_attr) ≡ (0, some normal_attr)
    pub attr_destroy : (a : Attr) → mutexattr_destroy (some a) ≡ (0, none)
    pub lock_init : mutex_init (some normal_attr) none ≡ (0, some fresh_lock)
    pub fresh_unowned : owner fresh_lock ≡ none
    pub lock_unowned :
        (t : ℕ) (l : Lock)
        → owner l ≡ none
        → (l' : Lock) × (mutex_lock t l ≡ some (0, l')) × (owner l' ≡ some t)
    pub lock_owned : (t u : ℕ) (l : Lock) → owner l ≡ some u → mutex_lock t l ≡ none
    pub unlock_owned :
        (t : ℕ) (l : Lock)
        → owner l ≡ some t
        → (l' : Lock) × (mutex_unlock t l ≡ (0, l')) × (owner l' ≡ none)
