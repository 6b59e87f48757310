-- ===== src/Barrier/Wait.antt =====
-- src/barrier.rs: `Barrier::wait` as one call, over the mutex and the condition variable.
pub mod Outcomes
use pinned_sync.Base.{ℕ, zero, suc, true, false}
use pinned_sync.Effect.{M, pure, panic, block, gets, on, on_unwind, ◌>>=◌, ◌>>◌}
use pinned_sync.Std.{ok, err, LockResult, Thread}
use pinned_sync.Sys.Interface.{SysMutex}
use pinned_sync.Mutex
use pinned_sync.Mutex.{Mutex, MutexGuard}
use pinned_sync.Condvar as Condvar
use pinned_sync.Condvar.{SysCondvar}
use pinned_sync.Barrier.{BarrierState, BarrierWaitResult, arrive, must_wait}

-- The world of the condition variable holds the lock.
module _ {sys : SysMutex} (cv : SysCondvar sys BarrierState) (num_threads : ℕ) where
  open cv use {World, mutex_of, set_mutex}

  abbrev pub on_lock : {A : Type 0} → M (Mutex sys BarrierState) A → M World A
  on_lock = on mutex_of set_mutex

  abbrev pub unwinding : Thread → Thread
  unwinding th = record { id = th.id; panicking = true }

  -- The destructor of the variable `lock`.
  abbrev pub drop_lock : Thread → MutexGuard sys → M World (Unit {0})
  drop_lock th lock = on_lock (Mutex.drop_guard sys th lock)

  -- `unwrap()`; the guard in the error is dropped in unwinding.
  abbrev pub unwrap_lock : Thread → LockResult (MutexGuard sys) → M World (MutexGuard sys)
  unwrap_lock th (ok lock) = pure lock
  unwrap_lock th (err e) = do drop_lock (unwinding th) e.guard; panic

  -- The `while`, and the return after it. `fuel` bounds the rounds.
  unfoldable pub wait_loop :
      (fuel : ℕ) → Thread → (local_gen : ℕ) → MutexGuard sys → M World BarrierWaitResult
  unfolding must_wait Mutex.drop_guard Condvar.wait
  wait_loop zero th local_gen lock = block
  wait_loop (suc fuel) th local_gen lock =
      gets (λ w. must_wait num_threads local_gen (mutex_of w).cell) >>= elim [
        | true ↦ (Condvar.wait cv th lock >>= unwrap_lock th) >>= λ lock'.
            wait_loop fuel th local_gen lock'
        | false ↦ do drop_lock th lock; pure (record { value = false })
      ]

  -- The branch of the last thread; a panic of `notify_all` drops the lock.
  unfoldable pub lead : Thread → MutexGuard sys → M World BarrierWaitResult
  unfolding Mutex.drop_guard Condvar.notify_all
  lead th lock = do
    on_unwind (drop_lock (unwinding th) lock) (Condvar.notify_all cv)
    drop_lock th lock
    pure (record { value = true })

  unfoldable pub wait : (fuel : ℕ) → Thread → M World BarrierWaitResult
  unfolding Mutex.lock Mutex.deref_mut arrive wait_loop lead Mutex.drop_guard
  wait fuel th = do
    result ← on_lock (Mutex.lock sys th)
    lock ← unwrap_lock th result
    state ← gets (λ w. (mutex_of w).cell)
    on_lock (Mutex.deref_mut sys lock (arrive num_threads state).1)
    elim (arrive num_threads state).0 [
      | true ↦ lead th lock
      | false ↦ wait_loop fuel th state.generation_id lock
    ]
