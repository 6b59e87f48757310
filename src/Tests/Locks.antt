-- ===== src/Tests/Locks.antt =====
-- Threads that share one `Mutex` over the fallback mutex, and the pthread mutex alone.
use pinned_sync.Base.{ℕ, ◌≡◌, ◌≢◌, refl, ◌⊎◌, true, false, none, some, []}
use pinned_sync.Effect.{returned, blocked, panicked}
use pinned_sync.Std.{ok, err, poison_error, LockResult, is_err, inner_of}
use pinned_sync.SysCommon.Poison
use pinned_sync.SysCommon.Poison.History.{any_panics}
use pinned_sync.SysCommon.InitAssert
use pinned_sync.Sys.Interface.{SysMutex, SysMutexLaws, held, free, held_usable}
use pinned_sync.Sys.Fallback
use pinned_sync.Sys.Fallback.Mutex as Raw
use pinned_sync.Sys.Fallback.Mutex.Contract as Contract
use pinned_sync.Sys.Fallback.Mutex.Contract.{fallback_mutex-SysMutexLaws}
use pinned_sync.Sys.Unix.Mutex as Pthread
use pinned_sync.Sys.Unix.Mutex.Contract as UnixContract
use pinned_sync.Sys.Unix.Mutex.Contract.{sys_mutex-SysMutexLaws, try_lock_waits}
use pinned_sync.Mutex
use pinned_sync.Mutex.{MutexGuard}
use pinned_sync.Mutex.Threads.{System, Reach, made, later, locked, dropped, acquire, release}
use pinned_sync.Mutex.Values.{last_written, into_inner-last_written}
use pinned_sync.Mutex.Lifecycle.{init_once}
use pinned_sync.Mutex.Safety.{lock_progress, lock_reports_poison}
use pinned_sync.Tests.Inits.{alice, alice_panics, bob}
use pinned_sync.Tests.Pthreads.{pthread_mutex, posix_mutex}

abbrev pub sys : SysMutex
sys = Raw.sys_mutex false

-- The mutex with the value 5, at rest and taken.
abbrev pub mutex_with : Raw.Mutex → Poison.Flag → Mutex.Mutex sys ℕ
mutex_with raw flag = record { inner = raw; poison = flag; cell = 5 }

abbrev pub guard : MutexGuard sys
guard = record { guard = record { panicking = false }; poison = record { panicking = false } }

abbrev pub start : System sys ℕ
start = record {
  mutex = mutex_with (Contract.ready none false) Poison.new;
  guards = λ _. none;
  begun = λ _. alice;
  history = [];
}

start-Reach : Reach sys ℕ start
unfolding Mutex.boxed Mutex.init Mutex.uninit Raw.init Raw.uninit InitAssert.init InitAssert.new
start-Reach = made 5 (λ _. alice) refl

abbrev alice_in : System sys ℕ
alice_in = acquire sys ℕ start alice (mutex_with (Contract.ready (some 0) false) Poison.new) guard

alice_in-Reach : Reach sys ℕ alice_in
unfolding Mutex.lock Raw.lock InitAssert.get_ref InitAssert.get Poison.borrow Poison.new
    Poison.map_result Fallback.ignore_poison
alice_in-Reach = later start-Reach (locked alice {r = ok guard} refl)

lock_progress_example :
    (((i : ℕ) → alice_in.guards i ≡ none)
      × ((r : LockResult (MutexGuard sys)) × (m : Mutex.Mutex sys ℕ) × (Mutex.lock sys bob
              alice_in.mutex
            ≡ (returned r, m))))
    ⊎ ((u : ℕ) × (alice_in.guards u ≢ none)
        × ((Mutex.lock sys bob alice_in.mutex ≡ (blocked, alice_in.mutex))
            ⊎ ((bob.id ≡ u) × (Mutex.lock sys bob alice_in.mutex ≡ (panicked, alice_in.mutex)))))
lock_progress_example =
    lock_progress sys Contract.InPhase (fallback_mutex-SysMutexLaws false) alice_in-Reach bob

fallback_mutex-SysMutexLaws_example : SysMutexLaws (Raw.sys_mutex true) Contract.InPhase
fallback_mutex-SysMutexLaws_example = fallback_mutex-SysMutexLaws true

-- Alice panics with the guard, and Bob locks the mutex after that.
abbrev alice_out : System sys ℕ
alice_out =
    release sys ℕ alice_in alice_panics
      (mutex_with (Contract.ready none true) (record { failed = true }))

alice_out-Reach : Reach sys ℕ alice_out
unfolding Mutex.drop_guard Raw.drop_guard Poison.done Poison.new
alice_out-Reach = later alice_in-Reach (dropped alice_panics {g = guard} refl refl)

abbrev bob_has : Mutex.Mutex sys ℕ
bob_has = mutex_with (Contract.ready (some 1) true) (record { failed = true })

abbrev bob_sees : LockResult (MutexGuard sys)
bob_sees = err (poison_error guard)

lock_reports_poison_example :
    (is_err bob_sees ≡ any_panics alice_out.history)
    × ((inner_of bob_sees).poison.panicking ≡ bob.panicking)
    × (bob_has.cell ≡ alice_out.mutex.cell)
unfolding Mutex.lock Raw.lock InitAssert.get_ref InitAssert.get Poison.borrow Poison.map_result
    Fallback.ignore_poison
lock_reports_poison_example =
    lock_reports_poison sys Contract.InPhase (fallback_mutex-SysMutexLaws false) alice_out-Reach bob
      bob_sees bob_has refl

into_inner-last_written_example :
    (inner_of (Mutex.into_inner sys bob alice_out.mutex) ≡ last_written alice_out-Reach)
    × (is_err (Mutex.into_inner sys bob alice_out.mutex) ≡ any_panics alice_out.history)
    × (Mutex.get_mut sys bob alice_out.mutex ≡ Mutex.into_inner sys bob alice_out.mutex)
    × (Mutex.deref sys guard alice_out.mutex ≡ last_written alice_out-Reach)
into_inner-last_written_example =
    into_inner-last_written sys Contract.InPhase (fallback_mutex-SysMutexLaws false) alice_out-Reach
      bob guard

abbrev unmade : Mutex.Mutex sys ℕ
unmade = Mutex.uninit sys 5

init_once_example :
    (Mutex.lock sys alice unmade ≡ (panicked, unmade))
    × (Mutex.try_lock sys alice unmade ≡ (panicked, unmade))
    × (Mutex.into_inner sys alice unmade ≡ ok 5)
    × ((m : Mutex.Mutex sys ℕ) × (g : MutexGuard sys) × (m' : Mutex.Mutex sys ℕ)
        × (m'' : Mutex.Mutex sys ℕ) × (Mutex.init sys unmade ≡ (returned tt, m))
        × (Mutex.lock sys alice m ≡ (returned (ok g), m'))
        × (Mutex.init sys m' ≡ (panicked, m''))
        × (Mutex.lock sys bob m'' ≡ (panicked, m''))
        × (Mutex.try_lock sys bob m'' ≡ (panicked, m'')))
init_once_example = init_once (fallback_mutex-SysMutexLaws false) 5 alice bob

sys_mutex-SysMutexLaws_example :
    SysMutexLaws
      (Pthread.sys_mutex pthread_mutex false)
      (UnixContract.InPhase pthread_mutex false posix_mutex)
sys_mutex-SysMutexLaws_example = sys_mutex-SysMutexLaws pthread_mutex false posix_mutex

abbrev alice_has : Pthread.Mutex pthread_mutex false
alice_has = UnixContract.ready pthread_mutex false posix_mutex (some 0)

try_lock_waits_example :
    ((held 0 ≡ free)
      × ((m' : Pthread.Mutex pthread_mutex false) × (Pthread.lock pthread_mutex false bob alice_has
            ≡ (returned Pthread.mutex_guard, m'))
          × (Pthread.try_lock pthread_mutex false bob alice_has
              ≡ (returned (some Pthread.mutex_guard), m'))))
    ⊎ (((u : ℕ) × (held 0 ≡ held u))
        × (Pthread.lock pthread_mutex false bob alice_has ≡ (blocked, alice_has))
        × (Pthread.try_lock pthread_mutex false bob alice_has ≡ (blocked, alice_has)))
try_lock_waits_example =
    try_lock_waits pthread_mutex false posix_mutex bob (held 0) alice_has (held_usable 0)
      (some 0, refl, refl)
