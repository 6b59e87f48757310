-- ===== src/Sys/Interface/Condvar.antt =====
-- What src/condvar.rs uses of a platform to make a condition variable.
use pinned_sync.Effect.{M}

pub record SysCond : Type 1 where
  pub Raw : Type 0
  pub uninit : Raw
  pub init : M Raw (Unit {0})
