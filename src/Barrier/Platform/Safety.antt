-- ===== src/Barrier/Platform/Safety.antt =====
-- What callers of `Barrier::wait` may rely on over any platform (src/barrier.rs, src/mutex.rs).
use pinned_sync.Base.{
  ℕ, ◌<◌, ◌≡◌, ◌≢◌, ◌⊎◌, subst, ap, ◌∙◌, inl, inr, Bool, true, false, arith, usize_mod, Bool-cases,
}
use pinned_sync.SysCommon.Poison
use pinned_sync.Sys.Interface.{SysMutex, Phase, free, held, SysMutexLaws}
use pinned_sync.Mutex.{is_poisoned}
use pinned_sync.Barrier.{must_wait}
use pinned_sync.Barrier.Threads as Abstract
use pinned_sync.Barrier.Invariant as Invariant
use pinned_sync.Barrier.Invariant.{Inv, Reach-Inv}
use pinned_sync.Barrier.Safety.{no_lost_wakeup}
use pinned_sync.Barrier.Platform.{
  Frame, Pc, locked, testing, sleeping, notifying, leaving, failed, System, Reach,
}
use pinned_sync.Barrier.Platform.Relation.{PcLike, at_sleeping}
use pinned_sync.Barrier.Platform.Simulation.{refines}
use pinned_sync.Barrier.Platform.Matched.{unowned, held_by}

-- The thread has the lock.
abbrev pub holds : {sys : SysMutex} → Pc sys → Bool
holds (locked _ _) = true
holds (testing _) = true
holds (notifying _) = true
holds (leaving _ _) = true
holds _ = false

pub holds_like :
    {sys : SysMutex} (InPhase : sys.Raw → Phase → Type 0) (p : Pc sys) (q : Abstract.Pc)
    → PcLike sys InPhase p q
    → Invariant.holds q ≡ holds p
holds_like InPhase p q h = ground arith

failed_like :
    {sys : SysMutex} (InPhase : sys.Raw → Phase → Type 0) (e : ℕ) (p : Pc sys) (q : Abstract.Pc)
    → PcLike sys InPhase p q
    → Invariant.IsPlaced e q
    → p ≢ failed
failed_like InPhase e p q h placed f = ground arith

module _ {sys : SysMutex} {InPhase : sys.Raw → Phase → Type 0} (laws : SysMutexLaws sys InPhase)
    {k n : ℕ} (pos : 0 < n) (few : n < usize_mod) {c : System sys} (reach : Reach sys k n c) where
  -- Over a platform that keeps the contract of `SysMutex`, in every reachable state of a barrier
  -- for `n` threads with `0 < n < 2 ^ 64`: no call has failed, neither in `unwrap` nor by a panic
  -- of the lock; two threads that are past `lock()` and have the lock are one; a thread that has it
  -- holds the platform's mutex; the lock is not poisoned, and fewer than `n` calls are counted.
  pub calls_never_fail :
      (i j : ℕ)
      → (c.pc i ≢ failed)
        × ((holds (c.pc i) ≡ false) ⊎ InPhase c.mem.inner (held i))
        × ((holds (c.pc i) ≡ false) ⊎ (holds (c.pc j) ≡ false) ⊎ (i ≡ j))
        × (is_poisoned sys c.mem ≡ false)
        × (c.mem.cell.count < n)
  unfolding is_poisoned
  calls_never_fail i j =
      let (a, ra, like) = refines sys InPhase laws pos few reach in
      let inv = Reach-Inv pos few ra in
      let at_i = holds_like InPhase (c.pc i) (a.pc i) (like.pcs i) in
      let at_j = holds_like InPhase (c.pc j) (a.pc j) (like.pcs j) in
      (
        failed_like InPhase a.mem.epoch (c.pc i) (a.pc i) (like.pcs i) (inv.placed i),
        elim (Bool-cases (holds (c.pc i))) [
          | inl h ↦ inr (held_by sys InPhase laws pos few like ra i (at_i ∙ h))
          | inr h ↦ inl h
        ],
        ground (arith, inv.owned i, inv.owned j),
        ap (λ p. Poison.get p) like.poison ∙ inv.sound,
        ground (arith, inv.short, like.state),
      )

  -- No wake-up is lost over such a platform: in a reachable state in which the platform's mutex is
  -- free, a thread that sleeps in `wait` still has to, by the condition of its loop.
  sleepers_must_wait :
      (i : ℕ) (f : Frame sys)
      → InPhase c.mem.inner free
      → c.pc i ≡ sleeping f
      → must_wait n f.local_gen c.mem.cell ≡ true
  sleepers_must_wait i f is_free e =
      let (a, ra, like) = refines sys InPhase laws pos few reach in
      let (af, q, fl) =
        at_sleeping sys InPhase f (a.pc i)
          (subst (λ p. PcLike sys InPhase p (a.pc i)) e (like.pcs i)) in
      let waits =
        no_lost_wakeup pos few ra i af (unowned sys InPhase laws pos few like ra is_free) q in
      ground (arith, like.state)
