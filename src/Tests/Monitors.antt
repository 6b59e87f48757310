-- ===== src/Tests/Monitors.antt =====
-- Alice locks a mutex and waits with its guard, and all are notified (src/condvar.rs,
-- src/mutex.rs).
use pinned_sync.Base.{ℕ, ◌≡◌, ◌⊎◌, refl, false, none, some, update}
use pinned_sync.Std.{ok, LockResult, is_err, inner_of}
use pinned_sync.SysCommon.Poison
use pinned_sync.SysCommon.Poison.History.{any_panics}
use pinned_sync.SysCommon.InitAssert
use pinned_sync.Sys.Fallback
use pinned_sync.Sys.Fallback.Mutex as Raw
use pinned_sync.Sys.Fallback.Mutex.Contract as Contract
use pinned_sync.Sys.Fallback.Mutex.Contract.{fallback_mutex-SysMutexLaws}
use pinned_sync.Mutex
use pinned_sync.Mutex.{MutexGuard}
use pinned_sync.Mutex.Threads as Calls
use pinned_sync.Condvar.Threads.{
  awake, asleep, rouse, System, Step, Reach, suspend, made, later, acts, sleeps, notified_all,
}
use pinned_sync.Condvar.Threads.Safety.{wait_keeps_exclusion, resumed_wait_reports_poison}
use pinned_sync.Condvar.Threads.Monitor.{AllRestore, resumed_wait_finds-Good}
use pinned_sync.Tests.Inits.{alice, bob}
use pinned_sync.Tests.Locks.{sys, mutex_with, guard, start}

abbrev nobody : System sys ℕ
nobody = record { base = start; waiting = λ _. awake }

abbrev alice_in : System sys ℕ
alice_in = record nobody {
  base =
      Calls.acquire sys ℕ start alice (mutex_with (Contract.ready (some 0) false) Poison.new) guard;
}

alice_locks : Step sys ℕ nobody alice_in
unfolding Mutex.lock Raw.lock InitAssert.get_ref InitAssert.get Poison.borrow Poison.new
    Poison.map_result Fallback.ignore_poison
alice_locks = acts (Calls.locked alice {r = ok guard} refl) refl

alice_in-Reach : Reach sys ℕ alice_in
unfolding Mutex.boxed Mutex.init Mutex.uninit Raw.init Raw.uninit InitAssert.init InitAssert.new
alice_in-Reach = later (made 5 (λ _. alice) refl) alice_locks

wait_keeps_exclusion_example :
    (alice_in.waiting 0 ≡ awake) × ((alice.id ≡ bob.id) ⊎ (alice_in.base.guards 1 ≡ none))
wait_keeps_exclusion_example =
    wait_keeps_exclusion sys Contract.InPhase (fallback_mutex-SysMutexLaws false) alice_in-Reach
      {g = guard} 0 1 refl

abbrev alice_sleeps : System sys ℕ
alice_sleeps = record {
  base = suspend sys ℕ alice_in.base alice (Contract.ready none false);
  waiting = update nobody.waiting 0 (asleep guard.poison);
}

alice_waits : Step sys ℕ alice_in alice_sleeps
unfolding Raw.drop_guard
alice_waits = sleeps alice {g = guard} refl refl

abbrev alice_woken : System sys ℕ
alice_woken = record alice_sleeps { waiting = λ i. rouse (alice_sleeps.waiting i) }

abbrev alice_woken-Reach : Reach sys ℕ alice_woken
alice_woken-Reach = later (later alice_in-Reach alice_waits) notified_all

abbrev alice_again : Mutex.Mutex sys ℕ
alice_again = mutex_with (Contract.ready (some 0) false) Poison.new

abbrev alice_sees : LockResult (MutexGuard sys)
alice_sees = ok guard

resumed_wait_reports_poison_example :
    ((i : ℕ) → alice_woken.base.guards i ≡ none)
    × (is_err alice_sees ≡ any_panics alice_woken.base.history)
    × ((inner_of alice_sees).poison.panicking ≡ (alice_woken.base.begun 0).panicking)
    × (alice_again.cell ≡ alice_woken.base.mutex.cell)
unfolding Mutex.repoison Mutex.is_poisoned Raw.lock InitAssert.get_ref InitAssert.get Poison.new
    Poison.get Fallback.ignore_poison
resumed_wait_reports_poison_example =
    resumed_wait_reports_poison sys Contract.InPhase (fallback_mutex-SysMutexLaws false)
      alice_woken-Reach alice guard.poison guard.guard (Contract.ready (some 0) false) alice_sees
      alice_again refl refl refl

-- The value is 5 all the time.
abbrev IsFive : ℕ → Type 0
IsFive v = v ≡ 5

resumed_wait_finds-Good_example : IsFive alice_again.cell
unfolding Mutex.repoison Mutex.is_poisoned Raw.lock InitAssert.get_ref InitAssert.get Poison.new
    Poison.get Fallback.ignore_poison AllRestore alice_in-Reach alice_locks alice_waits
resumed_wait_finds-Good_example =
    resumed_wait_finds-Good sys Contract.InPhase (fallback_mutex-SysMutexLaws false) IsFive
      alice_woken-Reach (((refl, tt), refl), tt) alice guard.poison guard.guard
      (Contract.ready (some 0) false) alice_sees alice_again refl refl refl
