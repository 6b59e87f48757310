-- ===== src/Barrier/Platform/Simulation.antt =====
-- Each step of threads at a barrier over a platform's mutex is a step of Barrier/Threads.
use pinned_sync.Base.{
  ℕ, ◌<◌, ◌≡◌, refl, sym, subst, ap, ◌∙◌, Bool, true, false, arith, update, usize_mod,
}
use pinned_sync.Effect.{returned}
use pinned_sync.Std.{ok}
use pinned_sync.SysCommon.Poison
use pinned_sync.Sys.Interface.{SysMutex, Phase, free, SysMutexLaws}
use pinned_sync.Mutex
use pinned_sync.Mutex.{Mutex, MutexGuard, is_poisoned}
use pinned_sync.Mutex.Calls.{lock-Acquired, drop_guard_lem}
use pinned_sync.Barrier.{BarrierState, BarrierWaitResult, arrive, must_wait}
use pinned_sync.Barrier.Threads as Abstract
use pinned_sync.Barrier.Threads.{thread}
use pinned_sync.Barrier.Invariant.{holds}
use pinned_sync.Barrier.Platform.{
  Frame, Pc, outside, entering, locked, testing, sleeping, woken, leaving, System, Lock, rejoin,
  Move, call, lock, lock_poisoned, lock_panics, count, sleep, spurious, relock, relock_poisoned,
  relock_panics, pass, leave, counted, wake, Step, pick, notify_all, Reach, made, later,
}
use pinned_sync.Barrier.Platform.Relation.{
  phase_of, PcLike, Like, at_outside, at_entering, at_locked, at_testing, at_sleeping, at_woken,
  at_notifying, at_leaving,
}
use pinned_sync.Barrier.Platform.Matched.{
  start-Like, inv, is_live, unowned, held_by, relocked, relock_returns, repoison_is_ok, lock_is_ok,
  lock_returns,
}

module _ (sys : SysMutex) (InPhase : sys.Raw → Phase → Type 0) (laws : SysMutexLaws sys InPhase)
    {k n : ℕ} (pos : 0 < n) (few : n < usize_mod) where
  module _ {c : System sys} {a : Abstract.System} (like : Like sys InPhase c a)
      (reach : Abstract.Reach k n a) where
    like_at : (i : ℕ) {p : Pc sys} → c.pc i ≡ p → PcLike sys InPhase p (a.pc i)
    like_at i e = subst (λ p. PcLike sys InPhase p (a.pc i)) e (like.pcs i)

    abbrev pub Simulated : System sys → Type 0
    Simulated c' = (a' : Abstract.System) × Abstract.Step k n a a' × Like sys InPhase c' a'

    -- A move of the abstract thread `i` matches a step to the lock `m` and the place `p'`.
    simulate :
        (i : ℕ) {q q' : Abstract.Pc} {b : Abstract.Shared} (m : Lock sys) (p' : Pc sys)
        → i < k
        → a.pc i ≡ q
        → Abstract.Move n i a.mem q b q'
        → InPhase m.inner (phase_of sys InPhase b.owner)
        → m.poison ≡ b.poison
        → m.cell ≡ b.state
        → PcLike sys InPhase p' q'
        → Simulated (record { mem = m; pc = update c.pc i p' })
    simulate i {q} {q'} {b} m p' lt e mv phase poison state pc = (
      record { mem = b; pc = update a.pc i q' },
      Abstract.pick i lt (subst (λ z. Abstract.Move n i a.mem z b q') (sym e) mv),
      record {
        phase = phase;
        poison = poison;
        state = state;
        pcs = λ j. ground (arith, like.pcs j);
      },
    )

    move_lock :
        (i : ℕ) (p : Bool) (g : MutexGuard sys) (m : Lock sys)
        → i < k
        → c.pc i ≡ entering p
        → Mutex.lock sys (thread i p) c.mem ≡ (returned (ok g), m)
        → Simulated (record { mem = m; pc = update c.pc i (locked p g) })
    unfolding Poison.borrow Poison.get
    move_lock i p g m lt e h =
        let (acq, _) =
          lock-Acquired sys InPhase laws (thread i p) c.mem m (ok g)
            (is_live sys InPhase laws pos few like reach) h in
        simulate i m (locked p g) lt (at_entering sys InPhase (a.pc i) p (like_at i e))
          (Abstract.lock {g = g.poison} (unowned sys InPhase laws pos few like reach acq.was_free)
            (ground (arith, (inv sys InPhase laws pos few like reach).sound, acq.noted)))
          acq.now_held (acq.same_poison ∙ like.poison) (acq.same_cell ∙ like.state) (refl, refl)

    move_count :
        (i : ℕ) (p : Bool) (g : MutexGuard sys) (leads : Bool) (st : BarrierState) (m : Lock sys)
        → i < k
        → c.pc i ≡ locked p g
        → arrive n c.mem.cell ≡ (leads, st)
        → Mutex.deref_mut sys g st c.mem ≡ (returned tt, m)
        → Simulated (record {
          mem = m;
          pc = update c.pc i (
              counted sys leads
                (record { panicking = p; lock = g; local_gen = c.mem.cell.generation_id }));
        })
    unfolding Mutex.deref_mut
    move_count i p g leads st m lt e h d =
        simulate i m _ lt (at_locked sys InPhase (a.pc i) p g (like_at i e))
          (Abstract.count {leads = leads} {st = st}
            (subst (λ s. arrive n s ≡ (leads, st)) like.state h))
          (ground (arith, like.phase)) (ground (arith, like.poison)) (ground arith)
          (ground (arith, like.state))

    move_sleep :
        (i : ℕ) (f : Frame sys) (raw : sys.Raw)
        → i < k
        → c.pc i ≡ testing f
        → must_wait n f.local_gen c.mem.cell ≡ true
        → sys.drop_guard (thread i f.panicking) f.lock.guard c.mem.inner ≡ (returned tt, raw)
        → Simulated (record { mem = record c.mem { inner = raw }; pc = update c.pc i (sleeping f) })
    move_sleep i f raw lt e h d =
        let (af, q, fl) = at_testing sys InPhase f (a.pc i) (like_at i e) in
        let (raw', d', free') =
          laws.drop_guard_held (thread i f.panicking) f.lock.guard c.mem.inner
            (held_by sys InPhase laws pos few like reach i (ap holds q)) in
        simulate i (record c.mem { inner = raw }) (sleeping f) lt q
          (Abstract.sleep {f = af} (ground (arith, like.state)))
          (subst (λ r. InPhase r free) (ground arith) free') like.poison like.state fl

    move_relock :
        (i : ℕ) (f : Frame sys) (g : sys.RawGuard) (raw : sys.Raw) (again : MutexGuard sys)
        (m : Lock sys)
        → i < k
        → c.pc i ≡ woken f
        → sys.lock (thread i f.panicking) c.mem.inner ≡ (returned g, raw)
        → Mutex.repoison sys (λ s. s) (rejoin sys f g) (record c.mem { inner = raw })
          ≡ (returned (ok again), m)
        → Simulated (record { mem = m; pc = update c.pc i (testing (record f { lock = again })) })
    unfolding Mutex.repoison
    move_relock i f g raw again m lt e h j =
        let (af, q, fl) = at_woken sys InPhase f (a.pc i) (like_at i e) in
        let (free', held') =
          relocked sys InPhase laws pos few like reach (thread i f.panicking) g raw h in
        simulate i m (testing (record f { lock = again })) lt q
          (Abstract.relock {f = af} (unowned sys InPhase laws pos few like reach free')
            (inv sys InPhase laws pos few like reach).sound)
          (ground arith) (ground (arith, like.poison)) (ground (arith, like.state)) (ground arith)

    move_leave :
        (i : ℕ) (f : Frame sys) (r : BarrierWaitResult) (m : Lock sys)
        → i < k
        → c.pc i ≡ leaving f r
        → Mutex.drop_guard sys (thread i f.panicking) f.lock c.mem ≡ (returned tt, m)
        → Simulated (record { mem = m; pc = update c.pc i outside })
    move_leave i f r m lt e d =
        let (af, q, fl) = at_leaving sys InPhase f r (a.pc i) (like_at i e) in
        let (raw, d', free') =
          drop_guard_lem sys InPhase laws (thread i f.panicking) c.mem f.lock
            (held_by sys InPhase laws pos few like reach i (ap holds q)) in
        simulate i m outside lt q (Abstract.leave {f = af} {r = r}) (ground arith)
          (ground (arith, like.poison)) (ground (arith, like.state)) tt

    move :
        (i : ℕ) {m : Lock sys} {p p' : Pc sys}
        → i < k
        → c.pc i ≡ p
        → Move sys n i c.mem p m p'
        → Simulated (record { mem = m; pc = update c.pc i p' })
    move i lt e (call p) =
        simulate i c.mem (entering p) lt (at_outside sys InPhase (a.pc i) (like_at i e))
          (Abstract.call p) like.phase like.poison like.state refl
    move i {m} lt e (lock {p} {g} h) = move_lock i p g m lt e h
    move i lt e (lock_poisoned {p} {e = x} {m'} h d) =
        absurd (lock_is_ok sys InPhase laws pos few like reach (thread i p) x m' h)
    move i lt e (lock_panics {p} {m'} h) = absurd (
        lock_returns sys InPhase laws pos few like reach (thread i p) m'
          (ap holds (at_entering sys InPhase (a.pc i) p (like_at i e))) h)
    move i {m} lt e (count {p} {g} {leads} {st} h d) = move_count i p g leads st m lt e h d
    move i lt e (sleep {f} {raw} h d) = move_sleep i f raw lt e h d
    move i lt e (spurious {f}) =
        let (af, q, fl) = at_sleeping sys InPhase f (a.pc i) (like_at i e) in
        simulate i c.mem (woken f) lt q (Abstract.spurious {f = af}) like.phase like.poison
          like.state fl
    move i {m} lt e (relock {f} {g} {raw} {lock = again} h j) =
        move_relock i f g raw again m lt e h j
    move i lt e (relock_poisoned {f} {g} {raw} {e = x} {m'} h j d) =
        absurd (repoison_is_ok sys InPhase laws pos few like reach (rejoin sys f g) raw x m' j)
    move i lt e (relock_panics {f} {raw} h) =
        let (af, q, fl) = at_woken sys InPhase f (a.pc i) (like_at i e) in
        absurd (
          relock_returns sys InPhase laws pos few like reach (thread i f.panicking) raw (ap holds q)
            h)
    move i lt e (pass {f} h) =
        let (af, q, fl) = at_testing sys InPhase f (a.pc i) (like_at i e) in
        simulate i c.mem (leaving f (record { value = false })) lt q
          (Abstract.pass {f = af} (ground (arith, like.state))) like.phase like.poison like.state
          (fl, refl)
    move i {m} lt e (leave {f} {r} d) = move_leave i f r m lt e d

    wake_like :
        (p : Pc sys) (q : Abstract.Pc)
        → PcLike sys InPhase p q
        → PcLike sys InPhase (wake sys p) (Abstract.wake q)
    wake_like p q h = ground arith

    pub step : {c' : System sys} → Step sys k n c c' → Simulated c'
    step (pick i lt mv) = move i lt refl mv
    step (notify_all i {f} lt e) =
        let (af, q, fl) = at_notifying sys InPhase f (a.pc i) (like_at i e) in
        (
          _,
          Abstract.notify_all i {f = af} lt q,
          record {
            phase = like.phase;
            poison = like.poison;
            state = like.state;
            pcs = λ j. ground (arith, wake_like (c.pc j) (a.pc j) (like.pcs j));
          },
        )

  -- Every state that threads reach at a barrier over a platform that keeps the contract of
  -- `SysMutex` looks like one that Barrier/Threads reaches, for a barrier of `n` threads with `0 <
  -- n < 2 ^ 64`: the platform's mutex is free or held as the owner there says, the flag and the
  -- counters are the same, and each thread stands at the same place with the same local variables.
  pub refines :
      {c : System sys}
      → Reach sys k n c
      → (a : Abstract.System) × Abstract.Reach k n a × Like sys InPhase c a
  refines (made {m} e) = (Abstract.start, Abstract.here, start-Like sys InPhase laws m e)
  refines (later r st) =
      let (a, ra, like) = refines r in
      let (a', sa, like') = step like ra st in (a', Abstract.later ra sa, like')
