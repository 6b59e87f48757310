-- ===== src/Sys/Fallback/Mutex/Contract.antt =====
-- The contract of `SysMutex` for src/sys/fallback/mutex.rs.
use pinned_sync.Base.{ℕ, ◌≡◌, refl, ◌≢◌, ◌⊎◌, inr, inl, Bool, false, Option, none, some, arith}
use pinned_sync.Effect.{returned, panicked}
use pinned_sync.Std.{Thread}
use pinned_sync.Std.Sync
use pinned_sync.Std.Sync.{StdGuard}
use pinned_sync.SysCommon.InitAssert
use pinned_sync.SysCommon.InitAssert.{InitAssert, init_state, in_progress_state}
use pinned_sync.Sys.Interface.{
  Phase, unready, broken, free, held, IsUsable, free_usable, held_usable, when_held, SysMutexLaws,
}
use pinned_sync.Sys.Fallback.Mutex.{Mutex, uninit, init, lock, try_lock, drop_guard, sys_mutex}

abbrev pub ready : Option ℕ → Bool → Mutex
ready owner failed = record {
  mutex = record { state = init_state; cell = some (record { owner = owner; failed = failed }) };
}

-- The poison flag of the library is of no account.
abbrev pub InPhase : Mutex → Phase → Type 0
InPhase m unready = m ≡ uninit
InPhase m broken = m.mutex.state ≡ in_progress_state
InPhase m free = (failed : Bool) × (m ≡ ready none failed)
InPhase m (held u) = (failed : Bool) × (m ≡ ready (some u) failed)

free_not_held : (u : ℕ) (m : Mutex) → InPhase m free → ¬ InPhase m (held u)
free_not_held u m (b, e) (b', e') = ground arith

init_unready :
    (m : Mutex) → InPhase m unready → (m' : Mutex) × (init m ≡ (returned tt, m')) × InPhase m' free
unfolding uninit init InitAssert.new
init_unready m e = (ready none false, ground arith, (false, refl))

init_again :
    (m : Mutex) (p : Phase)
    → p ≢ unready
    → InPhase m p
    → (m' : Mutex) × (init m ≡ (panicked, m')) × InPhase m' broken
unfolding init
init_again m unready ne h = absurd (ne refl)
init_again m broken ne h = ((init m).1, ground arith, ground arith)
init_again m free ne h = ((init m).1, ground arith, ground arith)
init_again m (held u) ne h = ((init m).1, ground arith, ground arith)

-- The guard that the library makes, whatever its flag says.
abbrev guard_for : Thread → StdGuard
guard_for th = record { panicking = th.panicking }

lock_free :
    (relock_panics : Bool) (th : Thread) (m : Mutex)
    → InPhase m free
    → (g : StdGuard) × (m' : Mutex) × (lock relock_panics th m ≡ (returned g, m'))
      × InPhase m' (held th.id)
unfolding lock
lock_free relock_panics th m (b, e) = (guard_for th, ready (some th.id) b, ground arith, (b, refl))

lock_held :
    (relock_panics : Bool) (th : Thread) (u : ℕ) (m : Mutex)
    → InPhase m (held u)
    → lock relock_panics th m ≡ (when_held relock_panics th u, m)
unfolding lock
lock_held relock_panics th u m (b, e) = ground arith

lock_unusable :
    (relock_panics : Bool) (th : Thread) (p : Phase) (m : Mutex)
    → ¬ IsUsable p
    → InPhase m p
    → lock relock_panics th m ≡ (panicked, m)
unfolding lock uninit InitAssert.new
lock_unusable relock_panics th unready m ne e = ground arith
lock_unusable relock_panics th broken m ne e = ground arith
lock_unusable relock_panics th free m ne e = absurd (ne free_usable)
lock_unusable relock_panics th (held u) m ne e = absurd (ne (held_usable u))

try_lock_unusable :
    (th : Thread) (p : Phase) (m : Mutex)
    → ¬ IsUsable p
    → InPhase m p
    → try_lock th m ≡ (panicked, m)
unfolding try_lock uninit InitAssert.new
try_lock_unusable th unready m ne e = ground arith
try_lock_unusable th broken m ne e = ground arith
try_lock_unusable th free m ne e = absurd (ne free_usable)
try_lock_unusable th (held u) m ne e = absurd (ne (held_usable u))

try_lock_free :
    (th : Thread) (m : Mutex)
    → InPhase m free
    → (g : StdGuard) × (m' : Mutex) × (try_lock th m ≡ (returned (some g), m'))
      × InPhase m' (held th.id)
unfolding try_lock
try_lock_free th m (b, e) = (guard_for th, ready (some th.id) b, ground arith, (b, refl))

try_lock_held :
    (th : Thread) (u : ℕ) (m : Mutex) → InPhase m (held u) → try_lock th m ≡ (returned none, m)
unfolding try_lock
try_lock_held th u m (b, e) = ground arith

-- On an initialized mutex `try_lock` always returns: it takes a free mutex, and on one that a
-- thread holds, the caller or another, it returns nothing and changes nothing.
try_lock_decides :
    (th : Thread) (p : Phase) (m : Mutex)
    → IsUsable p
    → InPhase m p
    → ((p ≡ free)
        × ((g : StdGuard) × (m' : Mutex) × (try_lock th m ≡ (returned (some g), m'))
            × InPhase m' (held th.id)))
      ⊎ (((u : ℕ) × (p ≡ held u)) × (try_lock th m ≡ (returned none, m)))
try_lock_decides th _ m free_usable h = inl (refl, try_lock_free th m h)
try_lock_decides th _ m (held_usable u) h = inr ((u, refl), try_lock_held th u m h)

drop_guard_held :
    (th : Thread) (g : StdGuard) (m : Mutex)
    → InPhase m (held th.id)
    → (m' : Mutex) × (drop_guard th g m ≡ (returned tt, m')) × InPhase m' free
unfolding drop_guard
drop_guard_held th g m (b, e) =
    (ready none (Sync.fails th g b), ground arith, (Sync.fails th g b, refl))

-- The fallback mutex keeps the whole contract of `sys::mutex`, whatever the poison flag inside of
-- the library's mutex says, and whether or not it panics in a thread that locks it again.
pub fallback_mutex-SysMutexLaws :
    (relock_panics : Bool) → SysMutexLaws (sys_mutex relock_panics) InPhase
fallback_mutex-SysMutexLaws relock_panics = record {
  relock_panics = relock_panics;
  free_not_held = free_not_held;
  uninit_unready = refl;
  init_unready = init_unready;
  init_again = init_again;
  lock_free = lock_free relock_panics;
  lock_held = lock_held relock_panics;
  lock_unusable = lock_unusable relock_panics;
  try_lock_unusable = try_lock_unusable;
  try_lock_free = try_lock_free;
  try_lock_held = λ th u m h. inl (try_lock_held th u m h);
  drop_guard_held = drop_guard_held;
}
