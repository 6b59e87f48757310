-- ===== src/Sys.antt =====
-- src/sys/mod.rs: the platform layer. What a platform offers is an interface; the two platforms
-- implement it.
pub mod Interface
pub mod Unix
pub mod Fallback
