-- ===== src/Tests.antt =====
-- Runs at concrete inputs.
mod Pthreads
mod Inits
mod Locks
mod RwLocks
mod Barriers
mod Condvars
mod UnixCondvars
mod TraitBounds
mod Platforms
mod Monitors
mod Races
mod Published
mod Relaxed
