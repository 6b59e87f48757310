-- ===== src/Sys/Interface.antt =====
-- src/sys/mod.rs: what the portable primitives use of a platform, with the contracts on which the
-- portable code rests.
mod Mutex
mod RwLock
mod Condvar
pub use Mutex.*
pub use RwLock.*
pub use Condvar.*
