-- ===== src/Sys/Fallback/Mutex.antt =====
-- src/sys/fallback/mutex.rs: a mutex of the standard library behind an `InitAssert`. `relock_panics` is
-- the library's choice for a thread that locks again what it holds.
pub mod Contract
use pinned_sync.Base.{ℕ, Bool, Option, none, some}
use pinned_sync.Effect.{Outcome, returned, M, pure, on, ◌>>=◌, ◌>>◌}
use pinned_sync.Std.{Thread}
use pinned_sync.Std.Sync
use pinned_sync.Std.Sync.{StdGuard}
use pinned_sync.SysCommon.InitAssert
use pinned_sync.SysCommon.InitAssert.{InitAssert, at_cell}
use pinned_sync.Sys.Fallback.{try_ignore_poison, ignore_poison}
use pinned_sync.Sys.Interface.{SysMutex}

pub record Mutex : Type 0 where
  pub mutex : InitAssert Sync.Mutex.Mutex

abbrev on_mutex : {A : Type 0} → M (InitAssert Sync.Mutex.Mutex) A → M Mutex A
on_mutex = on (λ m. m.mutex) (λ l m. record { mutex = l })

unfoldable pub uninit : Mutex
uninit = record { mutex = InitAssert.new }

unfoldable pub init : M Mutex (Unit {0})
unfolding InitAssert.init
init = on_mutex (InitAssert.init (returned Sync.Mutex.new))

-- The call on the reference that `get_ref` gives works on the cell.
unfoldable pub try_lock : Thread → M Mutex (Option StdGuard)
unfolding InitAssert.get_ref try_ignore_poison
try_lock th = do
  on_mutex (InitAssert.get_ref >>= λ _. pure tt)
  result ← on_mutex (at_cell (Sync.Mutex.try_lock th))
  pure (try_ignore_poison result)

unfoldable pub lock : (relock_panics : Bool) → Thread → M Mutex StdGuard
unfolding InitAssert.get_ref ignore_poison
lock relock_panics th = do
  on_mutex (InitAssert.get_ref >>= λ _. pure tt)
  result ← on_mutex (at_cell (Sync.Mutex.lock relock_panics th))
  pure (ignore_poison result)

-- The guard is the library's, and its destructor works on the mutex that it refers to.
unfoldable pub drop_guard : Thread → StdGuard → M Mutex (Unit {0})
drop_guard th g = on_mutex (at_cell (Sync.Mutex.drop_guard th g))

abbrev pub sys_mutex : (relock_panics : Bool) → SysMutex
sys_mutex relock_panics = record {
  Raw = Mutex;
  RawGuard = StdGuard;
  uninit = uninit;
  init = init;
  lock = lock relock_panics;
  try_lock = try_lock;
  drop_guard = drop_guard;
}
