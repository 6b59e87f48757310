-- ===== src/SysCommon.antt =====
-- src/sys_common/mod.rs: the poison flag and the initialization check.
pub mod Poison
pub mod InitAssert
