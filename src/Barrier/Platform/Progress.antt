-- ===== src/Barrier/Platform/Progress.antt =====
-- Which threads at a barrier over a platform can go on (src/barrier.rs, src/mutex.rs).
use pinned_sync.Base.{
  ℕ, ◌<◌, ◌≡◌, ◌≢◌, refl, sym, subst, ap, ◌∙◌, inl, inr, Bool, true, false, arith, usize_mod,
  Bool-cases, Option-cases, update,
}
use pinned_sync.Effect.{returned}
use pinned_sync.Std.{ok, err}
use pinned_sync.Sys.Interface.{SysMutex, Phase, free, held, SysMutexLaws}
use pinned_sync.Mutex
use pinned_sync.Mutex.{is_poisoned, MutexGuard}
use pinned_sync.Mutex.Calls.{lock_free_lem, drop_guard_lem}
use pinned_sync.Barrier.{arrive, must_wait}
use pinned_sync.Barrier.Threads as Abstract
use pinned_sync.Barrier.Threads.{thread}
use pinned_sync.Barrier.Invariant as Invariant
use pinned_sync.Barrier.Platform.{
  Frame, Pc, outside, entering, locked, testing, sleeping, woken, notifying, leaving, failed,
  System, Reach, Step, pick, notify_all, Move, lock, count, sleep, relock, pass, leave, counted,
  rejoin, Lock,
}
use pinned_sync.Barrier.Platform.Relation.{Like, phase_of}
use pinned_sync.Barrier.Platform.Simulation.{refines}
use pinned_sync.Barrier.Platform.Matched.{inv, clean, lock_is_ok}
use pinned_sync.Barrier.Platform.Safety.{holds, holds_like, calls_never_fail}

module _ {sys : SysMutex} where
  -- In a call and not asleep.
  abbrev pub is_awake : Pc sys → Bool
  is_awake outside = false
  is_awake (sleeping _) = false
  is_awake _ = true

  -- Some thread that is awake in a call has a step, which takes it to another place.
  abbrev pub CanStep : ℕ → ℕ → System sys → Type 0
  CanStep k n c =
      (i : ℕ) × (t : System sys) × (is_awake (c.pc i) ≡ true) × Step sys k n c t × (t.pc i ≢ c.pc i)

  counted_moves :
      (b : Bool) (f : Frame sys) (q : Bool) (g : MutexGuard sys) → counted sys b f ≢ locked q g
  counted_moves true f q g e = cc
  counted_moves false f q g e = cc

  awake_of_holds : (p : Pc sys) → holds p ≡ true → is_awake p ≡ true
  awake_of_holds p h = ground arith

module _ {sys : SysMutex} {InPhase : sys.Raw → Phase → Type 0} (laws : SysMutexLaws sys InPhase)
    {k n : ℕ} (pos : 0 < n) (few : n < usize_mod) {c : System sys} (reach : Reach sys k n c) where
  step_of :
      (i : ℕ) {p p' : Pc sys} {m : Lock sys}
      → i < k
      → c.pc i ≡ p
      → is_awake p ≡ true
      → p' ≢ p
      → Move sys n i c.mem p m p'
      → CanStep k n c
  step_of i {p} {p'} {m} lt e awake moved mv = (
    i,
    record { mem = m; pc = update c.pc i p' },
    ap is_awake e ∙ awake,
    pick i lt (subst (λ q. Move sys n i c.mem q m p') (sym e) mv),
    ground arith,
  )

  holder_steps :
      (i : ℕ) (p : Pc sys)
      → i < k
      → c.pc i ≡ p
      → InPhase c.mem.inner (held i)
      → holds p ≡ true
      → CanStep k n c
  unfolding Mutex.deref_mut
  holder_steps i (locked q g) lt e own h =
      step_of i lt e refl (counted_moves (arrive n c.mem.cell).0 _ q g)
        (count {leads = (arrive n c.mem.cell).0} {st = (arrive n c.mem.cell).1} refl refl)
  holder_steps i (testing f) lt e own h = elim (Bool-cases (must_wait n f.local_gen c.mem.cell)) [
    | inl wait ↦
        let (raw, d, _) =
          laws.drop_guard_held (thread i f.panicking) f.lock.guard c.mem.inner own in
        step_of i lt e refl (λ q. cc) (sleep wait d)
    | inr over ↦ step_of i lt e refl (λ q. cc) (pass over)
  ]
  holder_steps i (notifying f) lt e own h =
      (i, _, ap is_awake e ∙ refl, notify_all i lt e, ground arith)
  holder_steps i (leaving f r) lt e own h =
      let (raw, d, _) = drop_guard_lem sys InPhase laws (thread i f.panicking) c.mem f.lock own in
      step_of i lt e refl (λ q. cc) (leave d)
  holder_steps i _ lt e own h = cc

  -- The lock that a thread gets where nobody has it.
  entering_steps :
      (i : ℕ) (q : Bool) → i < k → c.pc i ≡ entering q → InPhase c.mem.inner free → CanStep k n c
  entering_steps i q lt e f =
      let (a, ra, like) = refines sys InPhase laws pos few reach in
      let (r, m, h) = lock_free_lem sys InPhase laws (thread i q) c.mem f in
      elim r as (λ r. Mutex.lock sys (thread i q) c.mem ≡ (returned r, m) → CanStep k n c) [
        | ok g ↦ λ h. step_of i lt e refl (λ q. cc) (lock {g = g} h)
        | err x ↦ λ h. absurd (lock_is_ok sys InPhase laws pos few like ra (thread i q) x m h)
      ]
        h

  woken_steps :
      (i : ℕ) (f : Frame sys) → i < k → c.pc i ≡ woken f → InPhase c.mem.inner free → CanStep k n c
  unfolding Mutex.repoison is_poisoned
  woken_steps i f lt e is_free =
      let (a, ra, like) = refines sys InPhase laws pos few reach in
      let (g, raw, h, _) = laws.lock_free (thread i f.panicking) c.mem.inner is_free in
      let ok_again = clean sys InPhase laws pos few like ra in
      step_of i lt e refl (λ q. cc)
        (relock {g = g} {raw = raw} {lock = rejoin sys f g} {m' = record c.mem { inner = raw }} h
          (ground arith))

  lt_of_awake :
      (a : Abstract.System)
      → Like sys InPhase c a
      → Invariant.Inv k n a.mem a.pc
      → (i : ℕ) → is_awake (c.pc i) ≡ true
      → i < k
  lt_of_awake a like i_inv i awake = ground (arith, i_inv.beyond i, like.pcs i)

  free_steps :
      (i : ℕ) (p : Pc sys)
      → i < k
      → c.pc i ≡ p
      → InPhase c.mem.inner free
      → is_awake p ≡ true
      → holds p ≡ false
      → p ≢ failed
      → CanStep k n c
  free_steps i (entering q) lt e f awake h ne = entering_steps i q lt e f
  free_steps i (woken x) lt e f awake h ne = woken_steps i x lt e f
  free_steps i failed lt e f awake h ne = absurd (ne refl)
  free_steps i _ lt e f awake h ne = cc

  -- Over a platform that keeps the contract of `SysMutex`, in a reachable state of a barrier for
  -- `n` threads with `0 < n < 2 ^ 64`: if any thread is awake in a call, then some thread that is
  -- awake in a call can take a step, which takes it to another place.
  pub some_call_goes_on : (i : ℕ) → is_awake (c.pc i) ≡ true → CanStep k n c
  some_call_goes_on i awake =
      let (a, ra, like) = refines sys InPhase laws pos few reach in
      let a_inv = inv sys InPhase laws pos few like ra in
      elim (Option-cases a.mem.owner) [
        | inl unowned ↦
            free_steps i (c.pc i) (lt_of_awake a like a_inv i awake) refl
              (subst (λ o. InPhase c.mem.inner (phase_of sys InPhase o)) unowned like.phase) awake
              (ground (arith, holds_like InPhase (c.pc i) (a.pc i) (like.pcs i), a_inv.owned i))
              (calls_never_fail laws pos few reach i i).0
        | inr (j, owned) ↦
            let held_j =
              sym (holds_like InPhase (c.pc j) (a.pc j) (like.pcs j)) ∙ a_inv.owner_holds j owned in
            holder_steps j (c.pc j) (lt_of_awake a like a_inv j (awake_of_holds (c.pc j) held_j))
              refl (subst (λ o. InPhase c.mem.inner (phase_of sys InPhase o)) owned like.phase)
              held_j
      ]
