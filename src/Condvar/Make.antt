-- ===== src/Condvar/Make.antt =====
-- src/condvar.rs: how a condition variable is made.
use pinned_sync.Effect.{Outcome, M, on}
use pinned_sync.Sys.Interface.{SysCond}

module _ (cond : SysCond) where
  pub record Condvar : Type 0 where
    pub inner : cond.Raw

  unfoldable pub uninit : Condvar
  uninit = record { inner = cond.uninit }

  unfoldable pub init : M Condvar (Unit {0})
  init = on (λ c. c.inner) (λ r c. record { inner = r }) cond.init

  -- `Pin<Box<_>>` and `Pin<Arc<_>>` hold the object; the result is the object that they hold.
  unfoldable pub boxed : Outcome (Unit {0}) × Condvar
  unfolding uninit init
  boxed = init uninit

  unfoldable pub arc : Outcome (Unit {0}) × Condvar
  unfolding uninit init
  arc = init uninit
