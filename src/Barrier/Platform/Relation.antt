-- ===== src/Barrier/Platform/Relation.antt =====
-- How threads at a barrier over a platform's mutex look from Barrier/Threads.
use pinned_sync.Base.{ℕ, Bool, ◌≡◌, Option, none, arith, refl, some}
use pinned_sync.Sys.Interface.{SysMutex, Phase, free, held}
use pinned_sync.Mutex.{MutexGuard}
use pinned_sync.Barrier.{BarrierWaitResult}
use pinned_sync.Barrier.Threads as Abstract
use pinned_sync.Barrier.Platform.{
  Frame, Pc, outside, entering, locked, testing, sleeping, woken, notifying, leaving, failed,
  System,
}

module _ (sys : SysMutex) (InPhase : sys.Raw → Phase → Type 0) where
  abbrev pub phase_of : Option ℕ → Phase
  phase_of none = free
  phase_of (some i) = held i

  -- The platform's guard is forgotten, and the abstract frame knows one number more.
  abbrev pub FrameLike : Frame sys → Abstract.Frame → Type 0
  FrameLike f a =
      (f.panicking ≡ a.panicking) × (f.lock.poison ≡ a.guard) × (f.local_gen ≡ a.local_gen)

  abbrev pub PcLike : Pc sys → Abstract.Pc → Type 0
  PcLike outside Abstract.outside = Unit
  PcLike (entering p) (Abstract.entering q) = p ≡ q
  PcLike (locked p g) (Abstract.locked q h) = (p ≡ q) × (g.poison ≡ h)
  PcLike (testing f) (Abstract.testing a) = FrameLike f a
  PcLike (sleeping f) (Abstract.sleeping a) = FrameLike f a
  PcLike (woken f) (Abstract.woken a) = FrameLike f a
  PcLike (notifying f) (Abstract.notifying a) = FrameLike f a
  PcLike (leaving f r) (Abstract.leaving a q) = FrameLike f a × (r ≡ q)
  PcLike failed Abstract.failed = Unit
  PcLike _ _ = ⊥

  pub record Like (c : System sys) (a : Abstract.System) : Type 0 where
    pub phase : InPhase c.mem.inner (phase_of a.mem.owner)
    pub poison : c.mem.poison ≡ a.mem.poison
    pub state : c.mem.cell ≡ a.mem.state
    pub pcs : (i : ℕ) → PcLike (c.pc i) (a.pc i)

  -- Places that look alike are the same place.
  module _ (q : Abstract.Pc) where
    pub at_outside : PcLike outside q → q ≡ Abstract.outside
    at_outside h = ground arith

    pub at_entering : (p : Bool) → PcLike (entering p) q → q ≡ Abstract.entering p
    at_entering p h = ground arith

    pub at_locked :
        (p : Bool) (g : MutexGuard sys) → PcLike (locked p g) q → q ≡ Abstract.locked p g.poison
    at_locked p g h = ground arith

  pub at_testing :
      (f : Frame sys) (q : Abstract.Pc)
      → PcLike (testing f) q
      → (a : Abstract.Frame) × (q ≡ Abstract.testing a) × FrameLike f a
  at_testing f (Abstract.testing a) h = (a, refl, h)
  at_testing f _ h = absurd h

  pub at_sleeping :
      (f : Frame sys) (q : Abstract.Pc)
      → PcLike (sleeping f) q
      → (a : Abstract.Frame) × (q ≡ Abstract.sleeping a) × FrameLike f a
  at_sleeping f (Abstract.sleeping a) h = (a, refl, h)
  at_sleeping f _ h = absurd h

  pub at_woken :
      (f : Frame sys) (q : Abstract.Pc)
      → PcLike (woken f) q
      → (a : Abstract.Frame) × (q ≡ Abstract.woken a) × FrameLike f a
  at_woken f (Abstract.woken a) h = (a, refl, h)
  at_woken f _ h = absurd h

  pub at_notifying :
      (f : Frame sys) (q : Abstract.Pc)
      → PcLike (notifying f) q
      → (a : Abstract.Frame) × (q ≡ Abstract.notifying a) × FrameLike f a
  at_notifying f (Abstract.notifying a) h = (a, refl, h)
  at_notifying f _ h = absurd h

  pub at_leaving :
      (f : Frame sys) (r : BarrierWaitResult) (q : Abstract.Pc)
      → PcLike (leaving f r) q
      → (a : Abstract.Frame) × (q ≡ Abstract.leaving a r) × FrameLike f a
  at_leaving f r (Abstract.leaving a r') h = (a, ground arith, h.0)
  at_leaving f r _ h = absurd h
