-- ===== src/Barrier/Platform/Matched.antt =====
-- A system of threads at a barrier over a platform's mutex that looks like one of Barrier/Threads.
use pinned_sync.Base.{
  ℕ, ◌<◌, ◌≡◌, ◌≢◌, subst, ap, ◌∙◌, inl, inr, true, false, none, arith, usize_mod, Option-cases,
  ◌⊎◌, ==_of_ne,
}
use pinned_sync.Effect.{returned, panicked}
use pinned_sync.Std.{err, PoisonError, Thread}
use pinned_sync.SysCommon.Poison
use pinned_sync.Sys.Interface.{SysMutex, Phase, free, held, SysMutexLaws}
use pinned_sync.Mutex
use pinned_sync.Mutex.{Mutex, MutexGuard, is_poisoned}
use pinned_sync.Mutex.Calls.{IsLive, lock-Acquired, lock_free_lem, lock_held_lem}
use pinned_sync.Barrier.{uninit_state}
use pinned_sync.Barrier.Threads as Abstract
use pinned_sync.Barrier.Threads.{thread}
use pinned_sync.Barrier.Invariant.{holds, Inv, Reach-Inv}
use pinned_sync.Barrier.Platform.{outside, System, Lock}
use pinned_sync.Barrier.Platform.Relation.{phase_of, Like}

module _ (sys : SysMutex) (InPhase : sys.Raw → Phase → Type 0)
    (laws : SysMutexLaws sys InPhase) where
  pub start-Like :
      (m : Lock sys)
      → Mutex.boxed sys uninit_state ≡ (returned tt, m)
      → Like sys InPhase (record { mem = m; pc = λ _. outside }) Abstract.start
  unfolding Mutex.boxed
  start-Like m e =
      let (raw, h, f) = laws.init_unready sys.uninit laws.uninit_unready in
      record { phase = ground arith; poison = ground arith; state = ground arith; pcs = λ j. tt }

module _ (sys : SysMutex) (InPhase : sys.Raw → Phase → Type 0) (laws : SysMutexLaws sys InPhase)
    {k n : ℕ} (pos : 0 < n) (few : n < usize_mod) where
  module _ {c : System sys} {a : Abstract.System} (like : Like sys InPhase c a)
      (reach : Abstract.Reach k n a) where
    pub inv : Inv k n a.mem a.pc
    inv = Reach-Inv pos few reach

    pub is_live : IsLive sys InPhase laws c.mem
    is_live = elim (Option-cases a.mem.owner) [
      | inl e ↦ inl (subst (λ o. InPhase c.mem.inner (phase_of sys InPhase o)) e like.phase)
      | inr (j, e) ↦ inr (j, subst (λ o. InPhase c.mem.inner (phase_of sys InPhase o)) e like.phase)
    ]

    pub unowned : InPhase c.mem.inner free → a.mem.owner ≡ none
    unowned f = elim (Option-cases a.mem.owner) [
      | inl e ↦ e
      | inr (j, e) ↦ absurd (
          laws.free_not_held j c.mem.inner f
            (subst (λ o. InPhase c.mem.inner (phase_of sys InPhase o)) e like.phase))
    ]

    pub held_by : (i : ℕ) → holds (a.pc i) ≡ true → InPhase c.mem.inner (held i)
    held_by i h =
        subst (λ o. InPhase c.mem.inner (phase_of sys InPhase o)) (inv.owned i h) like.phase

    pub clean : is_poisoned sys c.mem ≡ false
    unfolding is_poisoned
    clean = ap (λ p. Poison.get p) like.poison ∙ inv.sound

    -- The platform's mutex returns to a wait only where nobody had it.
    pub relocked :
        (th : Thread) (g : sys.RawGuard) (raw : sys.Raw)
        → sys.lock th c.mem.inner ≡ (returned g, raw)
        → InPhase c.mem.inner free × InPhase raw (held th.id)
    relocked th g raw h = elim is_live [
      | inl f ↦ let (g', raw', h', held') = laws.lock_free th c.mem.inner f in (f, ground arith)
      | inr (u, f) ↦ absurd (ground (arith, laws.lock_held th u c.mem.inner f))
    ]

    -- A thread that does not hold the lock finds it free, or with another thread.
    elsewhere :
        (i : ℕ)
        → holds (a.pc i) ≡ false
        → InPhase c.mem.inner free ⊎ ((u : ℕ) × (i ≢ u) × InPhase c.mem.inner (held u))
    elsewhere i q = elim (Option-cases a.mem.owner) [
      | inl e ↦ inl (subst (λ o. InPhase c.mem.inner (phase_of sys InPhase o)) e like.phase)
      | inr (j, e) ↦ inr (
        j,
        λ same. ground (arith, inv.owner_holds j e, ap (λ x. holds (a.pc x)) same, q),
        subst (λ o. InPhase c.mem.inner (phase_of sys InPhase o)) e like.phase,
      )
    ]

    pub relock_returns :
        (th : Thread) (raw : sys.Raw)
        → holds (a.pc th.id) ≡ false
        → sys.lock th c.mem.inner ≢ (panicked, raw)
    relock_returns th raw q h = elim (elsewhere th.id q) [
      | inl f ↦ let (g', raw', h', held') = laws.lock_free th c.mem.inner f in cc
      | inr (u, ne, f) ↦ ground (arith, ==_of_ne th.id u ne, laws.lock_held th u c.mem.inner f)
    ]

    pub repoison_is_ok :
        (g : MutexGuard sys) (raw : sys.Raw) (e : PoisonError (MutexGuard sys)) (m : Lock sys)
        → Mutex.repoison sys (λ s. s) g (record c.mem { inner = raw }) ≢ (returned (err e), m)
    unfolding Mutex.repoison is_poisoned
    repoison_is_ok g raw e m h = ground (arith, clean)

    -- The lock neither reports poison nor panics.
    pub lock_is_ok :
        (th : Thread) (e : PoisonError (MutexGuard sys)) (m : Lock sys)
        → Mutex.lock sys th c.mem ≢ (returned (err e), m)
    lock_is_ok th e m h =
        let p = (lock-Acquired sys InPhase laws th c.mem m (err e) is_live h).1 in
        ground (arith, clean)

    pub lock_returns :
        (th : Thread) (m : Lock sys)
        → holds (a.pc th.id) ≡ false
        → Mutex.lock sys th c.mem ≢ (panicked, m)
    lock_returns th m q h = elim (elsewhere th.id q) [
      | inl f ↦ let (r, m', e) = lock_free_lem sys InPhase laws th c.mem f in cc
      | inr (u, ne, f) ↦
          ground (arith, ==_of_ne th.id u ne, lock_held_lem sys InPhase laws th u c.mem f)
    ]
