-- ===== src/Sys/Interface/Mutex.antt =====
-- What src/mutex.rs uses of a platform: the operations of `sys::mutex`, and their contract.
use pinned_sync.Base.{ℕ, ◌≡◌, ◌≢◌, ◌⊎◌, Bool, ◌&&◌, Option, none, some, ◌==◌, if◌then◌else◌}
use pinned_sync.Effect.{Outcome, returned, panicked, blocked, M}
use pinned_sync.Std.{Thread}

-- `sys::mutex::Mutex` and `sys::mutex::MutexGuard`; `drop_guard` is the destructor of the guard.
pub record SysMutex : Type 1 where
  pub Raw : Type 0
  pub RawGuard : Type 0
  pub uninit : Raw
  pub init : M Raw (Unit {0})
  pub lock : Thread → M Raw RawGuard
  pub try_lock : Thread → M Raw (Option RawGuard)
  pub drop_guard : Thread → RawGuard → M Raw (Unit {0})

-- The life of a mutex. `broken` is what a second `init` leaves.
pub data Phase : Type 0 where
  unready broken free : Phase
  held : (thread : ℕ) → Phase

pub data IsUsable : Phase → Type 0 where
  free_usable : IsUsable free
  held_usable : (u : ℕ) → IsUsable (held u)

-- How `lock` ends on a mutex that thread `holder` holds: another thread waits, and the holder waits
-- for ever or panics, as the platform does.
abbrev pub when_held : {A : Type 0} → (relock_panics : Bool) → Thread → (holder : ℕ) → Outcome A
when_held relock_panics th holder = if relock_panics && th.id == holder then panicked else blocked

-- `InPhase` says what memory looks like in each phase.
module _ (m : SysMutex) (InPhase : m.Raw → Phase → Type 0) where
  open m use {Raw, RawGuard, uninit, init, lock, try_lock, drop_guard}

  pub record SysMutexLaws : Type 0 where
    pub relock_panics : Bool
    pub free_not_held : (u : ℕ) (r : Raw) → InPhase r free → ¬ InPhase r (held u)
    pub uninit_unready : InPhase uninit unready
    pub init_unready :
        (r : Raw) → InPhase r unready → (r' : Raw) × (init r ≡ (returned tt, r')) × InPhase r' free
    pub init_again :
        (r : Raw) (p : Phase)
        → p ≢ unready
        → InPhase r p
        → (r' : Raw) × (init r ≡ (panicked, r')) × InPhase r' broken
    pub lock_free :
        (th : Thread) (r : Raw)
        → InPhase r free
        → (g : RawGuard) × (r' : Raw) × (lock th r ≡ (returned g, r')) × InPhase r' (held th.id)
    pub lock_held :
        (th : Thread) (u : ℕ) (r : Raw)
        → InPhase r (held u)
        → lock th r ≡ (when_held relock_panics th u, r)
    pub lock_unusable :
        (th : Thread) (p : Phase) (r : Raw) → ¬ IsUsable p → InPhase r p → lock th r ≡ (panicked, r)
    pub try_lock_unusable :
        (th : Thread) (p : Phase) (r : Raw)
        → ¬ IsUsable p
        → InPhase r p
        → try_lock th r ≡ (panicked, r)
    pub try_lock_free :
        (th : Thread) (r : Raw)
        → InPhase r free
        → (g : RawGuard) × (r' : Raw) × (try_lock th r ≡ (returned (some g), r'))
          × InPhase r' (held th.id)
    pub try_lock_held :
        (th : Thread) (u : ℕ) (r : Raw)
        → InPhase r (held u)
        → (try_lock th r ≡ (returned none, r)) ⊎ (try_lock th r ≡ (blocked, r))
    pub drop_guard_held :
        (th : Thread) (g : RawGuard) (r : Raw)
        → InPhase r (held th.id)
        → (r' : Raw) × (drop_guard th g r ≡ (returned tt, r')) × InPhase r' free
