-- ===== src/Sys/Unix/Libc.antt =====
-- The pthread calls that src/sys/unix makes, as parameters, and what POSIX says of them.
mod Mutex
mod RwLock
mod Condvar
mod Calls
pub use Mutex.*
pub use RwLock.*
pub use Condvar.*
pub use Calls.*
