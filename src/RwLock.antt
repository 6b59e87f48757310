-- ===== src/RwLock.antt =====
-- src/rwlock.rs: the lock that holds a value, over the read-write lock of the platform.
pub mod Threads
pub mod Calls
pub mod Invariant
pub mod Safety
pub mod Progress
pub mod Values
pub mod Lifecycle
use pinned_sync.Base.{ℕ, Bool, Option, none, some, if◌then◌else◌}
use pinned_sync.Effect.{Outcome, returned, M, pure, gets, modify, on, ◌>>=◌, ◌>>◌}
use pinned_sync.Std.{ok, err, poisoned, would_block, LockResult, TryLockResult, try_result, Thread}
use pinned_sync.SysCommon.Poison
use pinned_sync.SysCommon.Poison.{map_result}
use pinned_sync.Sys.Interface.{SysRwLock}

module _ (sys : SysRwLock) where
  pub record RwLock (T : Type 0) : Type 0 where
    pub inner : sys.Raw
    pub poison : Poison.Flag
    pub cell : T  -- the field `data`

  -- References to the lock, which is the object that the calls work on.
  pub record RwLockReadGuard : Type 0 where
    pub guard : sys.ReadGuard

  pub record RwLockWriteGuard : Type 0 where
    pub guard : sys.WriteGuard
    pub poison : Poison.Guard

  abbrev read_guard_of : sys.ReadGuard → Poison.Guard → RwLockReadGuard
  read_guard_of g _ = record { guard = g }

  abbrev write_guard_of : sys.WriteGuard → Poison.Guard → RwLockWriteGuard
  write_guard_of g p = record { guard = g; poison = p }

  module _ {T : Type 0} where
    abbrev pub on_inner : {A : Type 0} → M sys.Raw A → M (RwLock T) A
    on_inner = on (λ m. m.inner) (λ r m. record m { inner = r })

    unfoldable pub uninit : T → RwLock T
    unfolding Poison.new
    uninit value = record { inner = sys.uninit; poison = Poison.new; cell = value }

    unfoldable pub init : M (RwLock T) (Unit {0})
    init = on_inner sys.init

    -- `Pin<Box<_>>` and `Pin<Arc<_>>` hold the object; the result is the object that they hold.
    unfoldable pub boxed : T → Outcome (Unit {0}) × RwLock T
    unfolding uninit init
    boxed value = init (uninit value)

    unfoldable pub arc : T → Outcome (Unit {0}) × RwLock T
    unfolding uninit init
    arc value = init (uninit value)

    -- `poison::map_result(self.poison.borrow(), …)`
    guarded : {G : Type 0} → Thread → (Poison.Guard → G) → M (RwLock T) (LockResult G)
    unfolding Poison.borrow map_result
    guarded th make = do
      borrowed ← gets (λ m. Poison.borrow th m.poison)
      pure (map_result borrowed make)

    unfoldable pub read : Thread → M (RwLock T) (LockResult RwLockReadGuard)
    unfolding guarded
    read th = do guard ← on_inner (sys.read th); guarded th (read_guard_of guard)

    try_read_guard : Thread → Option sys.ReadGuard → M (RwLock T) (TryLockResult RwLockReadGuard)
    unfolding guarded
    try_read_guard th none = pure (err would_block)
    try_read_guard th (some guard) = do
      result ← guarded th (read_guard_of guard)
      pure (try_result result)

    unfoldable pub try_read : Thread → M (RwLock T) (TryLockResult RwLockReadGuard)
    unfolding try_read_guard
    try_read th = do try_read_guard th (← on_inner (sys.try_read th))

    unfoldable pub write : Thread → M (RwLock T) (LockResult RwLockWriteGuard)
    unfolding guarded
    write th = do guard ← on_inner (sys.write th); guarded th (write_guard_of guard)

    try_write_guard : Thread → Option sys.WriteGuard → M (RwLock T) (TryLockResult RwLockWriteGuard)
    unfolding guarded
    try_write_guard th none = pure (err would_block)
    try_write_guard th (some guard) = do
      result ← guarded th (write_guard_of guard)
      pure (try_result result)

    unfoldable pub try_write : Thread → M (RwLock T) (TryLockResult RwLockWriteGuard)
    unfolding try_write_guard
    try_write th = do try_write_guard th (← on_inner (sys.try_write th))

    unfoldable pub is_poisoned : RwLock T → Bool
    unfolding Poison.get
    is_poisoned m = Poison.get m.poison

    unfoldable pub into_inner : Thread → RwLock T → LockResult T
    unfolding Poison.borrow map_result
    into_inner th m = map_result (Poison.borrow th m.poison) (λ _. m.cell)

    -- What the reference that it returns reads.
    unfoldable pub get_mut : Thread → RwLock T → LockResult T
    unfolding Poison.borrow map_result
    get_mut th m = let value = m.cell in map_result (Poison.borrow th m.poison) (λ _. value)

    unfoldable pub deref : RwLockReadGuard → RwLock T → T
    deref g m = m.cell

    unfoldable pub deref_write : RwLockWriteGuard → RwLock T → T
    deref_write g m = m.cell

    unfoldable pub deref_mut : RwLockWriteGuard → T → M (RwLock T) (Unit {0})
    deref_mut g value = modify (λ m. record m { cell = value })

    -- A read guard has no destructor of its own but that of the platform's guard.
    unfoldable pub drop_read : Thread → RwLockReadGuard → M (RwLock T) (Unit {0})
    drop_read th g = on_inner (sys.drop_read th g.guard)

    unfoldable pub drop_write : Thread → RwLockWriteGuard → M (RwLock T) (Unit {0})
    unfolding Poison.done
    drop_write th g = do
      modify (λ m. record m { poison = Poison.done th g.poison m.poison })
      on_inner (sys.drop_write th g.guard)
