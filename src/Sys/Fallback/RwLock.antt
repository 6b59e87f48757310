-- ===== src/Sys/Fallback/RwLock.antt =====
-- src/sys/fallback/rwlock.rs: a read-write lock of the standard library behind an `InitAssert`.
pub mod Contract
use pinned_sync.Base.{ℕ, Option, none, some}
use pinned_sync.Effect.{Outcome, returned, M, pure, on, ◌>>=◌, ◌>>◌}
use pinned_sync.Std.{Thread}
use pinned_sync.Std.Sync
use pinned_sync.Std.Sync.{StdGuard}
use pinned_sync.SysCommon.InitAssert
use pinned_sync.SysCommon.InitAssert.{InitAssert, at_cell}
use pinned_sync.Sys.Fallback.{try_ignore_poison, ignore_poison}
use pinned_sync.Sys.Interface.{SysRwLock}

pub record RwLock : Type 0 where
  pub rw_lock : InitAssert Sync.RwLock.RwLock

abbrev on_rw_lock : {A : Type 0} → M (InitAssert Sync.RwLock.RwLock) A → M RwLock A
on_rw_lock = on (λ r. r.rw_lock) (λ l r. record { rw_lock = l })

-- A call on the reference that `get_ref` gives works on the cell.
abbrev on_ref : {A : Type 0} → M Sync.RwLock.RwLock A → M RwLock A
on_ref m = do on_rw_lock (InitAssert.get_ref >>= λ _. pure tt); on_rw_lock (at_cell m)

unfoldable pub uninit : RwLock
uninit = record { rw_lock = InitAssert.new }

unfoldable pub init : M RwLock (Unit {0})
unfolding InitAssert.init
init = on_rw_lock (InitAssert.init (returned Sync.RwLock.new))

unfoldable pub try_read : Thread → M RwLock (Option (Unit {0}))
unfolding InitAssert.get_ref try_ignore_poison
try_read th = do pure (try_ignore_poison (← on_ref (Sync.RwLock.try_read th)))

unfoldable pub read : Thread → M RwLock (Unit {0})
unfolding InitAssert.get_ref ignore_poison
read th = do pure (ignore_poison (← on_ref (Sync.RwLock.read th)))

unfoldable pub try_write : Thread → M RwLock (Option StdGuard)
unfolding InitAssert.get_ref try_ignore_poison
try_write th = do pure (try_ignore_poison (← on_ref (Sync.RwLock.try_write th)))

unfoldable pub write : Thread → M RwLock StdGuard
unfolding InitAssert.get_ref ignore_poison
write th = do pure (ignore_poison (← on_ref (Sync.RwLock.write th)))

-- The guards are the library's, and their destructors work on the lock that they refer to.
unfoldable pub drop_read : Thread → Unit {0} → M RwLock (Unit {0})
drop_read th g = on_rw_lock (at_cell Sync.RwLock.drop_read)

unfoldable pub drop_write : Thread → StdGuard → M RwLock (Unit {0})
drop_write th g = on_rw_lock (at_cell (Sync.RwLock.drop_write th g))

abbrev pub sys_rw_lock : SysRwLock
sys_rw_lock = record {
  Raw = RwLock;
  ReadGuard = Unit {0};
  WriteGuard = StdGuard;
  uninit = uninit;
  init = init;
  try_read = try_read;
  read = read;
  try_write = try_write;
  write = write;
  drop_read = drop_read;
  drop_write = drop_write;
}
