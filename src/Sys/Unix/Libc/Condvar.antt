-- ===== src/Sys/Unix/Libc/Condvar.antt =====
-- `pthread_cond_t`: the calls of src/sys/unix/condvar.rs. A call that waits lets other threads run,
-- so it works on the whole world `W`, with the object in it; `none` means that it never returns.
use pinned_sync.Base.{ℕ, Option}
use pinned_sync.Sys.Unix.Condvar.Time.{Timespec, Timeval}

pub record PthreadCond (W : Type 0) : Type 1 where
  pub Cond : Type 0  -- pthread_cond_t
  pub Attr : Type 0  -- pthread_condattr_t
  pub Clock : Type 0
  pub initializer : Cond  -- PTHREAD_COND_INITIALIZER
  pub clock_monotonic : Clock
  pub etimedout : ℕ
  pub einval : ℕ
  pub condattr_init : Option Attr → ℕ × Option Attr
  pub condattr_setclock : Clock → Option Attr → ℕ × Option Attr
  pub condattr_destroy : Option Attr → ℕ × Option Attr
  pub cond_init : Option Attr → Cond → ℕ × Cond
  pub cond_signal : Cond × W → ℕ × (Cond × W)
  pub cond_broadcast : Cond × W → ℕ × (Cond × W)
  pub cond_destroy : Cond → ℕ × Cond
  pub cond_wait : ℕ → Cond × W → Option (ℕ × (Cond × W))
  pub cond_timedwait : ℕ → Timespec → Cond × W → Option (ℕ × (Cond × W))
  pub clock_gettime : W → ℕ × Timespec
  pub gettimeofday : W → ℕ × Timeval
  pub instant : W → ℕ  -- `std::time::Instant::now()`, in nanoseconds
