-- ===== src/Std/Sync.antt =====
-- `std::sync::Mutex<()>`, `std::sync::RwLock<()>` and `std::sync::Condvar` of the Rust standard
-- library, as the fallback platform uses them. A lock is who has it and the poison flag of the
-- library itself.
mod Guard
pub mod Mutex
pub mod RwLock
mod Condvar
pub use Guard.*
pub use Condvar.*
