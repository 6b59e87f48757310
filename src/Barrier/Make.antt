-- ===== src/Barrier/Make.antt =====
-- src/barrier.rs: how a barrier is made.
use pinned_sync.Base.{ℕ, ◌≡◌, refl, arith}
use pinned_sync.Effect.{Outcome, returned, panicked, M, on, ◌>>◌}
use pinned_sync.SysCommon.Poison
use pinned_sync.Sys.Interface.{SysMutex, SysCond, SysMutexLaws, Phase, free, broken}
use pinned_sync.Mutex
use pinned_sync.Mutex.{Mutex, is_poisoned}
use pinned_sync.Condvar.Make as Condvar
use pinned_sync.Condvar.Make.{Condvar}
use pinned_sync.Barrier.{BarrierState, uninit_state}

module _ (sys : SysMutex) (cond : SysCond) where
  pub record Barrier : Type 0 where
    pub lock : Mutex sys BarrierState
    pub cvar : Condvar cond
    pub num_threads : ℕ

  unfoldable pub uninit : ℕ → Barrier
  unfolding Mutex.uninit uninit_state Condvar.uninit
  uninit n = record {
    lock = Mutex.uninit sys uninit_state;
    cvar = Condvar.uninit cond;
    num_threads = n;
  }

  unfoldable pub init : M Barrier (Unit {0})
  unfolding Mutex.init Condvar.init
  init = do
    on (λ b. b.lock) (λ l b. record b { lock = l }) (Mutex.init sys)
    on (λ b. b.cvar) (λ c b. record b { cvar = c }) (Condvar.init cond)

  unfoldable pub boxed : ℕ → Outcome (Unit {0}) × Barrier
  unfolding uninit init
  boxed n = init (uninit n)

  unfoldable pub arc : ℕ → Outcome (Unit {0}) × Barrier
  unfolding uninit init
  arc n = init (uninit n)

  module _ (InPhase : sys.Raw → Phase → Type 0) (laws : SysMutexLaws sys InPhase) (ready : cond.Raw)
      (once : cond.init cond.uninit ≡ (returned tt, ready)) where
    -- If the platform can initialize a condition variable, `boxed` returns a barrier whose lock is
    -- free and not poisoned, with nobody counted in generation 0; `init` on it panics, and breaks
    -- the lock before it gets to the condition variable.
    boxed_ready :
        (n : ℕ)
        → (b : Barrier) × (boxed n ≡ (returned tt, b))
          × InPhase b.lock.inner free
          × (b.lock.poison ≡ Poison.new)
          × (b.lock.cell ≡ uninit_state)
          × (b.num_threads ≡ n)
          × ((b' : Barrier) × (init b ≡ (panicked, b'))
              × InPhase b'.lock.inner broken
              × (b'.cvar ≡ b.cvar))
    unfolding boxed
    boxed_ready n =
        let (raw, e, open_lock) = laws.init_unready sys.uninit laws.uninit_unready in
        let (raw', e', shut) = laws.init_again raw free (λ q. cc) open_lock in
        (
          record {
            lock = record { inner = raw; poison = Poison.new; cell = uninit_state };
            cvar = record { inner = ready };
            num_threads = n;
          },
          ground (arith, once),
          open_lock,
          refl,
          refl,
          refl,
          (
            record {
              lock = record { inner = raw'; poison = Poison.new; cell = uninit_state };
              cvar = record { inner = ready };
              num_threads = n;
            },
            ground arith,
            shut,
            refl,
          ),
        )
