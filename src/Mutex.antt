-- ===== src/Mutex.antt =====
-- src/mutex.rs: the mutex that holds a value, over the mutex of the platform.
pub mod Calls
pub mod Threads
pub mod Invariant
pub mod Safety
pub mod Values
pub mod Lifecycle
use pinned_sync.Base.{ℕ, Bool, Option, none, some, if◌then◌else◌}
use pinned_sync.Effect.{Outcome, returned, M, pure, gets, modify, on, ◌>>=◌, ◌>>◌}
use pinned_sync.Std.{
  ok, err, poisoned, would_block, LockResult, TryLockResult, poison_error, try_result, Thread,
}
use pinned_sync.SysCommon.Poison
use pinned_sync.SysCommon.Poison.{map_result}
use pinned_sync.Sys.Interface.{SysMutex}

module _ (sys : SysMutex) where
  pub record Mutex (T : Type 0) : Type 0 where
    pub inner : sys.Raw
    pub poison : Poison.Flag
    pub cell : T  -- the field `data`

  -- The reference to the mutex is the object that the calls work on.
  pub record MutexGuard : Type 0 where
    pub guard : sys.RawGuard
    pub poison : Poison.Guard

  module _ {T : Type 0} where
    abbrev pub on_inner : {A : Type 0} → M sys.Raw A → M (Mutex T) A
    on_inner = on (λ m. m.inner) (λ r m. record m { inner = r })

    unfoldable pub uninit : T → Mutex T
    unfolding Poison.new
    uninit value = record { inner = sys.uninit; poison = Poison.new; cell = value }

    unfoldable pub init : M (Mutex T) (Unit {0})
    init = on_inner sys.init

    -- `Pin<Box<_>>` and `Pin<Arc<_>>` hold the object; the result is the object that they hold.
    unfoldable pub boxed : T → Outcome (Unit {0}) × Mutex T
    unfolding uninit init
    boxed value = init (uninit value)

    unfoldable pub arc : T → Outcome (Unit {0}) × Mutex T
    unfolding uninit init
    arc value = init (uninit value)

    unfoldable pub lock : Thread → M (Mutex T) (LockResult MutexGuard)
    unfolding Poison.borrow map_result
    lock th = do
      guard ← on_inner (sys.lock th)
      borrowed ← gets (λ m. Poison.borrow th m.poison)
      pure (map_result borrowed (λ poison. record { guard = guard; poison = poison }))

    -- After the platform's `try_lock`; `ok_or(WouldBlock)?` returns early.
    try_guard : Thread → Option sys.RawGuard → M (Mutex T) (TryLockResult MutexGuard)
    unfolding Poison.borrow map_result
    try_guard th none = pure (err would_block)
    try_guard th (some guard) = do
      borrowed ← gets (λ m. Poison.borrow th m.poison)
      pure (try_result (map_result borrowed (λ poison. record { guard = guard; poison = poison })))

    unfoldable pub try_lock : Thread → M (Mutex T) (TryLockResult MutexGuard)
    unfolding try_guard
    try_lock th = do try_guard th (← on_inner (sys.try_lock th))

    unfoldable pub is_poisoned : Mutex T → Bool
    unfolding Poison.get
    is_poisoned m = Poison.get m.poison

    unfoldable pub into_inner : Thread → Mutex T → LockResult T
    unfolding Poison.borrow map_result
    into_inner th m = map_result (Poison.borrow th m.poison) (λ _. m.cell)

    -- What the reference that it returns reads.
    unfoldable pub get_mut : Thread → Mutex T → LockResult T
    unfolding Poison.borrow map_result
    get_mut th m = let value = m.cell in map_result (Poison.borrow th m.poison) (λ _. value)

    -- `mutex_of` finds the mutex in a state that holds more.
    module _ {S : Type 0} (mutex_of : S → Mutex T) where
      unfoldable pub repoison : MutexGuard → M S (LockResult MutexGuard)
      unfolding is_poisoned
      repoison g = do
        p ← gets (λ s. is_poisoned (mutex_of s))
        pure (if p then err (poison_error g) else ok g)

      -- `f` takes the guard of the platform: it is dropped inside of `f` if that panics, and the
      -- destructor of the outer guard does not run.
      unfoldable pub map :
          MutexGuard → (sys.RawGuard → M S sys.RawGuard) → M S (LockResult MutexGuard)
      unfolding repoison
      map g f = do guard ← f g.guard; repoison (record { guard = guard; poison = g.poison })

    unfoldable pub deref : MutexGuard → Mutex T → T
    deref g m = m.cell

    unfoldable pub deref_mut : MutexGuard → T → M (Mutex T) (Unit {0})
    deref_mut g value = modify (λ m. record m { cell = value })

    -- The destructor of the guard, then those of its fields.
    unfoldable pub drop_guard : Thread → MutexGuard → M (Mutex T) (Unit {0})
    unfolding Poison.done
    drop_guard th g = do
      modify (λ m. record m { poison = Poison.done th g.poison m.poison })
      on_inner (sys.drop_guard th g.guard)
