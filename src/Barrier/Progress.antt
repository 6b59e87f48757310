-- ===== src/Barrier/Progress.antt =====
-- Which threads at a barrier can go on (src/barrier.rs).
use pinned_sync.Base.{
  ℕ, ◌<◌, ◌≡◌, ◌≢◌, ◌⊎◌, inl, inr, refl, Bool, true, false, none, arith, usize_mod, Bool-cases,
  Option-cases, update, ap, sym, subst, ◌∙◌,
}
use pinned_sync.SysCommon.Poison
use pinned_sync.Barrier.{must_wait, arrive}
use pinned_sync.Barrier.Threads.{
  Frame, Pc, outside, entering, locked, testing, sleeping, woken, notifying, leaving, failed,
  Shared, System, Step, Reach, Move, pick, notify_all, lock, count, sleep, relock, pass, leave,
  counted,
}
use pinned_sync.Barrier.Invariant.{holds, Inv, IsPlaced, Reach-Inv}

-- In a call and not asleep.
abbrev pub is_awake : Pc → Bool
is_awake outside = false
is_awake (sleeping _) = false
is_awake _ = true

-- The thread asks for the lock.
abbrev asks : Pc → Bool
asks (entering _) = true
asks (woken _) = true
asks _ = false

-- Some thread that is awake in a call has a step, which takes it to another place.
abbrev pub CanStep : ℕ → ℕ → System → Type 0
CanStep k n s =
    (i : ℕ) × (t : System) × (is_awake (s.pc i) ≡ true) × Step k n s t × (t.pc i ≢ s.pc i)

counted_moves : (b : Bool) (f : Frame) (q : Bool) (g : Poison.Guard) → counted b f ≢ locked q g
counted_moves true f q g e = cc
counted_moves false f q g e = cc

awake_of_holds : (p : Pc) → holds p ≡ true → is_awake p ≡ true
awake_of_holds p h = ground arith

module _ {k n : ℕ} (pos : 0 < n) (few : n < usize_mod) {s : System} (r : Reach k n s) where
  inv : Inv k n s.mem s.pc
  inv = Reach-Inv pos few r

  step_of :
      (i : ℕ) {p p' : Pc} {m : Shared}
      → i < k
      → s.pc i ≡ p
      → is_awake p ≡ true
      → p' ≢ p
      → Move n i s.mem p m p'
      → CanStep k n s
  step_of i {p} {p'} {m} lt e awake moved mv = (
    i,
    record { mem = m; pc = update s.pc i p' },
    ap is_awake e ∙ awake,
    pick i lt (subst (λ q. Move n i s.mem q m p') (sym e) mv),
    ground arith,
  )

  holder_steps : (i : ℕ) (p : Pc) → i < k → s.pc i ≡ p → holds p ≡ true → CanStep k n s
  holder_steps i (locked q g) lt e h =
      step_of i lt e refl (counted_moves (arrive n s.mem.state).0 _ q g)
        (count {leads = (arrive n s.mem.state).0} {st = (arrive n s.mem.state).1} refl)
  holder_steps i (testing f) lt e h = elim (Bool-cases (must_wait n f.local_gen s.mem.state)) [
    | inl wait ↦ step_of i lt e refl (λ q. cc) (sleep wait)
    | inr over ↦ step_of i lt e refl (λ q. cc) (pass over)
  ]
  holder_steps i (notifying f) lt e h =
      (i, _, ap is_awake e ∙ refl, notify_all i lt e, ground arith)
  holder_steps i (leaving f r) lt e h = step_of i lt e refl (λ q. cc) leave
  holder_steps i outside lt e h = cc
  holder_steps i (entering _) lt e h = cc
  holder_steps i (sleeping _) lt e h = cc
  holder_steps i (woken _) lt e h = cc
  holder_steps i failed lt e h = cc

  asker_steps :
      (i : ℕ) (p : Pc) → i < k → s.pc i ≡ p → s.mem.owner ≡ none → asks p ≡ true → CanStep k n s
  unfolding Poison.borrow
  asker_steps i (entering q) lt e free h =
      step_of i lt e refl (λ q. cc)
        (lock {g = record { panicking = q }} free (ground (arith, inv.sound)))
  asker_steps i (woken f) lt e free h = step_of i lt e refl (λ q. cc) (relock free inv.sound)
  asker_steps i _ lt e free h = cc

  lt_of_awake : (i : ℕ) → is_awake (s.pc i) ≡ true → i < k
  lt_of_awake i awake = ground (arith, inv.beyond i)

  awake_cases :
      (p : Pc) → IsPlaced s.mem.epoch p → is_awake p ≡ true → (holds p ≡ true) ⊎ (asks p ≡ true)
  awake_cases p h awake = ground arith

  -- In a reachable state of a barrier for `n` threads, with `0 < n < 2 ^ 64`, if any thread is
  -- awake in a call, then some thread that is awake in a call can take a step, which takes it to
  -- another place.
  no_deadlock : (i : ℕ) → is_awake (s.pc i) ≡ true → CanStep k n s
  no_deadlock i awake = elim (Option-cases s.mem.owner) [
    | inl free ↦ elim (awake_cases (s.pc i) (inv.placed i) awake) [
      | inl held ↦ absurd (ground (arith, inv.owned i))
      | inr asking ↦ asker_steps i (s.pc i) (lt_of_awake i awake) refl free asking
    ]
    | inr (j, e) ↦
        let held = inv.owner_holds j e in
        holder_steps j (s.pc j) (lt_of_awake j (awake_of_holds (s.pc j) held)) refl held
  ]
