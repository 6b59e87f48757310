-- ===== src/Barrier/Wait/Outcomes.antt =====
-- How `Barrier::wait` of src/barrier.rs ends.
use pinned_sync.Base.{
  ℕ, zero, suc, ◌<◌, ◌≡◌, refl, inl, inr, true, false, arith, Bool-cases, usize_mod, wrapping_add,
  subst, sym, ap, ◌∙◌,
}
use pinned_sync.Effect.{Outcome, returned, panicked, blocked, undefined, aborted, pure, ◌>>=◌, ◌>>◌}
use pinned_sync.Std.{Thread}
use pinned_sync.SysCommon.Poison
use pinned_sync.Sys.Interface.{SysMutex, SysMutexLaws, Phase, free}
use pinned_sync.Mutex
use pinned_sync.Mutex.{Mutex, MutexGuard}
use pinned_sync.Condvar as Condvar
use pinned_sync.Condvar.{SysCondvar}
use pinned_sync.Barrier.{BarrierState, BarrierWaitResult, arrive, must_wait}
use pinned_sync.Barrier.Wait.{wait, wait_loop, lead, drop_lock, unwrap_lock, unwinding}

-- The counters after the last thread of a generation has arrived.
abbrev pub reset : BarrierState → BarrierState
reset st = record { count = 0; generation_id = wrapping_add st.generation_id 1 }

arrive_last :
    (n : ℕ) (st : BarrierState) → suc st.count ≡ n → n < usize_mod → arrive n st ≡ (true, reset st)
unfolding arrive
arrive_last n st e h = ground arith

module _ {sys : SysMutex} (cv : SysCondvar sys BarrierState) (num_threads : ℕ) where
  open cv use {World, mutex_of, set_mutex}

  module _ (InPhase : sys.Raw → Phase → Type 0) (laws : SysMutexLaws sys InPhase)
      (put_get : (m : Mutex sys BarrierState) (w : World) → mutex_of (set_mutex m w) ≡ m) where
    -- On a poisoned lock that is free, `wait` panics in `unwrap`; the lock is free again then, and
    -- the counters are as they were.
    wait_poisoned :
        (fuel : ℕ) (th : Thread) (w : World)
        → InPhase (mutex_of w).inner free
        → Mutex.is_poisoned sys (mutex_of w) ≡ true
        → (w' : World) × (wait cv num_threads fuel th w ≡ (panicked, w'))
          × InPhase (mutex_of w').inner free
          × ((mutex_of w').cell ≡ (mutex_of w).cell)
    unfolding wait Mutex.lock Mutex.drop_guard Mutex.is_poisoned Poison.borrow Poison.get
        Poison.map_result Poison.done
    wait_poisoned fuel th w is_free poisoned =
        let (g, raw, e, h) = laws.lock_free th (mutex_of w).inner is_free in
        let m : Mutex sys BarrierState = record (mutex_of w) { inner = raw } in
        let (raw', e', h') = laws.drop_guard_held (unwinding cv num_threads th) g raw h in
        let m' : Mutex sys BarrierState = record {
          inner = raw';
          poison =
              Poison.done (unwinding cv num_threads th) (record { panicking = th.panicking })
                (mutex_of w).poison;
          cell = (mutex_of w).cell;
        } in
        (
          set_mutex m' (set_mutex m w),
          ground (arith, e, e', put_get m w),
          subst (λ k. InPhase k.inner free) (sym (put_get m' (set_mutex m w))) h',
          ap (λ k. k.cell) (put_get m' (set_mutex m w)),
        )

    -- The call that completes a group of `num_threads` returns `true` without waiting, whatever the
    -- fuel: if the lock is free and not poisoned and `notify_all` returns and leaves the lock
    -- alone, the counters are reset, the generation is the next, and the lock is free and not
    -- poisoned.
    wait_leads :
        (fuel : ℕ) (th : Thread) (w : World)
        → InPhase (mutex_of w).inner free
        → Mutex.is_poisoned sys (mutex_of w) ≡ false
        → suc (mutex_of w).cell.count ≡ num_threads
        → num_threads < usize_mod
        → ((v : World)
            → (v' : World) × (cv.notify_all v ≡ (returned tt, v')) × (mutex_of v' ≡ mutex_of v))
        → (w' : World) × (wait cv num_threads fuel th w ≡ (returned (record { value = true }), w'))
          × InPhase (mutex_of w').inner free
          × (Mutex.is_poisoned sys (mutex_of w') ≡ false)
          × ((mutex_of w').cell ≡ reset (mutex_of w).cell)
    unfolding wait lead Mutex.lock Mutex.drop_guard Mutex.deref_mut Mutex.is_poisoned Poison.borrow
        Poison.get Poison.map_result Poison.done Condvar.notify_all
    wait_leads fuel th w is_free clean last few notifies =
        let (g, raw, e, h) = laws.lock_free th (mutex_of w).inner is_free in
        let (raw', e', h') = laws.drop_guard_held th g raw h in
        let m : Mutex sys BarrierState = record (mutex_of w) { inner = raw } in
        let m' : Mutex sys BarrierState = record m { cell = reset m.cell } in
        let leads = arrive_last num_threads m.cell last few in
        let u = set_mutex m' (set_mutex m w) in
        let (v, q, same) = notifies u in
        let m'' : Mutex sys BarrierState = record m' { inner = raw' } in
        (
          set_mutex m'' v,
          ground (arith, e, e', q, same, leads, put_get m w, put_get m' (set_mutex m w)),
          subst (λ k. InPhase k.inner free) (sym (put_get m'' v)) h',
          ap (λ k. Mutex.is_poisoned sys k) (put_get m'' v) ∙ clean,
          ap (λ k. k.cell) (put_get m'' v),
        )

  -- How the call of a thread that is not the last ends: it returns `false`, and its last acts are
  -- to find the condition of the `while` false and to drop the lock.
  abbrev pub Followed : Thread → (local_gen : ℕ) → BarrierWaitResult → World → Type 0
  Followed th local_gen r w' =
      (r.value ≡ false)
      × ((v : World) × (lock : MutexGuard sys) × (must_wait num_threads local_gen (mutex_of v).cell
            ≡ false)
          × (drop_lock cv num_threads th lock v ≡ (returned tt, w')))

  after_drop :
      (th : Thread) (gen : ℕ) (lock : MutexGuard sys) (o : Outcome (Unit {0}) × World)
      (r : BarrierWaitResult) (w w' : World)
      → must_wait num_threads gen (mutex_of w).cell ≡ false
      → drop_lock cv num_threads th lock w ≡ o
      → (drop_lock cv num_threads th lock >> pure (record { value = false })) w ≡ (returned r, w')
      → Followed th gen r w'
  after_drop th gen lock (returned tt, u) r w w' over d e =
      (ground arith, (w, lock, over, ground arith))
  after_drop th gen lock (panicked, u) r w w' over d e = absurd (ground arith)
  after_drop th gen lock (blocked, u) r w w' over d e = absurd (ground arith)
  after_drop th gen lock (undefined, u) r w w' over d e = absurd (ground arith)
  after_drop th gen lock (aborted, u) r w w' over d e = absurd (ground arith)

  after_wait :
      (fuel : ℕ) (th : Thread) (gen : ℕ) (lock : MutexGuard sys)
      (o : Outcome (MutexGuard sys) × World) (r : BarrierWaitResult) (w w' : World)
      → (Condvar.wait cv th lock >>= unwrap_lock cv num_threads th) w ≡ o
      → ((Condvar.wait cv th lock >>= unwrap_lock cv num_threads th) >>= λ g.
            wait_loop cv num_threads fuel th gen g)
          w
        ≡ (returned r, w')
      → ((g : MutexGuard sys) (u : World)
          → wait_loop cv num_threads fuel th gen g u ≡ (returned r, w')
          → Followed th gen r w')
      → Followed th gen r w'
  after_wait fuel th gen lock (returned g, u) r w w' d e ih = ih g u (ground arith)
  after_wait fuel th gen lock (panicked, u) r w w' d e ih = absurd (ground arith)
  after_wait fuel th gen lock (blocked, u) r w w' d e ih = absurd (ground arith)
  after_wait fuel th gen lock (undefined, u) r w w' d e ih = absurd (ground arith)
  after_wait fuel th gen lock (aborted, u) r w w' d e ih = absurd (ground arith)

  -- Whenever the loop of `wait` returns, it has ended as `Followed` says: not before the generation
  -- of the call is over or the count has reached the number of threads.
  wait_loop_ends :
      (fuel : ℕ) (th : Thread) (gen : ℕ) (lock : MutexGuard sys) (r : BarrierWaitResult)
      (w w' : World)
      → wait_loop cv num_threads fuel th gen lock w ≡ (returned r, w')
      → Followed th gen r w'
  unfolding wait_loop
  wait_loop_ends zero th gen lock r w w' e = cc
  wait_loop_ends (suc fuel) th gen lock r w w' e =
      elim (Bool-cases (must_wait num_threads gen (mutex_of w).cell)) [
        | inl waits ↦
            after_wait fuel th gen lock _ r w w' refl (ground arith)
              (λ g u. wait_loop_ends fuel th gen g r u w')
        | inr over ↦ after_drop th gen lock _ r w w' over refl (ground arith)
      ]
