-- ===== src/Sys/Unix.antt =====
-- src/sys/unix: the primitives over pthreads.
pub mod Libc
pub mod Mutex
pub mod RwLock
pub mod Condvar
use pinned_sync.Base.{ℕ, ◌==◌, if◌then◌else◌}
use pinned_sync.Effect.{M, pure, panic}
use pinned_sync.Std.{Result, ok, err}

-- The error of the result is the code that the operating system gave.
unfoldable pub cvt_nz : ℕ → Result (Unit {0}) ℕ
cvt_nz error = if error == 0 then ok tt else err error
