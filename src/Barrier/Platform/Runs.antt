-- ===== src/Barrier/Platform/Runs.antt =====
-- What the threads at a barrier have done in a run, and how long a run can be (src/barrier.rs).
use pinned_sync.Base.{
  ℕ, suc, ◌+◌, ◌*◌, ◌≤◌, ◌<◌, ◌≡◌, refl, Bool, true, false, arith, update, total, total-update,
  total-le_with, total-eq-zero, total-eq-zero,
}
use pinned_sync.Sys.Interface.{SysMutex}
use pinned_sync.Barrier.Platform.{
  Frame, Pc, outside, entering, locked, testing, sleeping, woken, notifying, leaving, failed, Lock,
  System, Move, call, lock, lock_poisoned, lock_panics, count, sleep, spurious, relock,
  relock_poisoned, relock_panics, pass, leave, counted, wake, Step, pick, notify_all, Reach, made,
  later,
}

-- How many calls began and how many returned, how many waits ended with no notification, and how
-- many steps of other kinds there were.
pub record Tally : Type 0 where
  pub calls : ℕ
  pub returns : ℕ
  pub wakeups : ℕ
  pub others : ℕ

module _ {sys : SysMutex} where
  abbrev pub tally_move :
      {n i : ℕ} {m m' : Lock sys} {p p' : Pc sys} → Move sys n i m p m' p' → Tally → Tally
  tally_move (call _) t = record t { calls = suc t.calls }
  tally_move (leave _) t = record t { returns = suc t.returns }
  tally_move spurious t = record t { wakeups = suc t.wakeups }
  tally_move (lock _) t = record t { others = suc t.others }
  tally_move (lock_poisoned _ _) t = record t { others = suc t.others }
  tally_move (lock_panics _) t = record t { others = suc t.others }
  tally_move (count _ _) t = record t { others = suc t.others }
  tally_move (sleep _ _) t = record t { others = suc t.others }
  tally_move (relock _ _) t = record t { others = suc t.others }
  tally_move (relock_poisoned _ _ _) t = record t { others = suc t.others }
  tally_move (relock_panics _) t = record t { others = suc t.others }
  tally_move (pass _) t = record t { others = suc t.others }

  abbrev pub tally_step : {k n : ℕ} {c c' : System sys} → Step sys k n c c' → Tally → Tally
  tally_step (pick _ _ mv) t = tally_move mv t
  tally_step (notify_all _ _ _) t = record t { others = suc t.others }

  unfoldable pub tally : {k n : ℕ} {c : System sys} → Reach sys k n c → Tally
  tally (made _) = record { calls = 0; returns = 0; wakeups = 0; others = 0 }
  tally (later r st) = tally_step st (tally r)

  -- The steps that a thread at a place may still cause with no notification from outside: a leader
  -- also pays for the three steps of each thread that it wakes.
  abbrev pub potential : (threads : ℕ) → Pc sys → ℕ
  potential k outside = 0
  potential k (entering _) = 4 + 3 * k
  potential k (locked _ _) = 3 + 3 * k
  potential k (notifying _) = 2 + 3 * k
  potential k (woken _) = 3
  potential k (testing _) = 2
  potential k (leaving _ _) = 1
  potential k (sleeping _) = 0
  potential k failed = 0

  -- What is spent and what is left is paid for by the calls and the spurious wake-ups.
  abbrev IsPaid : ℕ → Tally → (ℕ → Pc sys) → Type 0
  IsPaid k t pc =
      t.others + t.returns + total (potential k) k pc ≤ t.calls * (4 + 3 * k) + 3 * t.wakeups

  -- A thread that goes to a place of less potential pays for the step itself.
  spend :
      {k : ℕ} (t : Tally) (pc : ℕ → Pc sys) (i : ℕ) {p : Pc sys} (p' : Pc sys)
      → i < k
      → pc i ≡ p
      → potential k p' < potential k p
      → IsPaid k t pc
      → IsPaid k (record t { others = suc t.others }) (update pc i p')
  spend {k} t pc i p' lt e less paid = ground (arith, total-update (potential k) k pc i p' lt)

  potential_counted : (k : ℕ) (b : Bool) (f : Frame sys) → potential k (counted sys b f) < 3 + 3 * k
  potential_counted k true f = omega arith
  potential_counted k false f = omega arith

  move-IsPaid :
      {k n : ℕ} (t : Tally) (pc : ℕ → Pc sys) (i : ℕ) {m m' : Lock sys} {p p' : Pc sys}
      → i < k
      → pc i ≡ p
      → (mv : Move sys n i m p m' p') → IsPaid k t pc
      → IsPaid k (tally_move mv t) (update pc i p')
  move-IsPaid {k} t pc i {p' = p'} lt e (call q) paid =
      ground (arith, total-update (potential k) k pc i p' lt)
  move-IsPaid {k} t pc i {p' = p'} lt e spurious paid =
      ground (arith, total-update (potential k) k pc i p' lt)
  move-IsPaid {k} t pc i {p' = p'} lt e (leave d) paid =
      ground (arith, total-update (potential k) k pc i p' lt)
  move-IsPaid t pc i {p' = p'} lt e (lock h) paid = spend t pc i p' lt e (omega arith) paid
  move-IsPaid t pc i {p' = p'} lt e (lock_poisoned h d) paid =
      spend t pc i p' lt e (omega arith) paid
  move-IsPaid t pc i {p' = p'} lt e (lock_panics h) paid = spend t pc i p' lt e (omega arith) paid
  move-IsPaid {k} t pc i {p' = p'} lt e (count {leads} h d) paid =
      spend t pc i p' lt e (potential_counted k leads _) paid
  move-IsPaid t pc i {p' = p'} lt e (sleep h d) paid = spend t pc i p' lt e (omega arith) paid
  move-IsPaid t pc i {p' = p'} lt e (relock h d) paid = spend t pc i p' lt e (omega arith) paid
  move-IsPaid t pc i {p' = p'} lt e (relock_poisoned h r d) paid =
      spend t pc i p' lt e (omega arith) paid
  move-IsPaid t pc i {p' = p'} lt e (relock_panics h) paid = spend t pc i p' lt e (omega arith) paid
  move-IsPaid t pc i {p' = p'} lt e (pass h) paid = spend t pc i p' lt e (omega arith) paid

  -- A thread that is woken has three steps more.
  potential-wake : (k : ℕ) (p : Pc sys) → potential k (wake sys p) ≤ potential k p + 3
  potential-wake k p = ground arith

  Step-IsPaid :
      {k n : ℕ} {c c' : System sys} (st : Step sys k n c c') (t : Tally)
      → IsPaid k t c.pc
      → IsPaid k (tally_step st t) c'.pc
  Step-IsPaid {c = c} (pick i lt mv) t paid = move-IsPaid t c.pc i lt refl mv paid
  Step-IsPaid {k} {c = c} (notify_all i {f} lt e) t paid = ground (
    arith,
    total-le_with (potential k) 3 k (λ j. wake sys (c.pc j)) c.pc (λ j. potential-wake k (c.pc j)),
    total-update (potential k) k (λ j. wake sys (c.pc j)) i (leaving f (record { value = true }))
        lt,
  )

  Reach-IsPaid : {k n : ℕ} {c : System sys} (r : Reach sys k n c) → IsPaid k (tally r) c.pc
  unfolding tally
  Reach-IsPaid {k} (made e) =
      omega (arith, total-eq-zero (potential k) k (λ _. outside) (λ _. refl))
  Reach-IsPaid (later r st) = Step-IsPaid st (tally r) (Reach-IsPaid r)

  -- A run at a barrier that `k` threads share, over any platform, has at most `4 + 3 * k` steps for
  -- each call and 3 for each wait that ends with no notification. So it ends, under every schedule,
  -- unless calls or such wake-ups go on for ever.
  pub runs_are_short :
      {k n : ℕ} {c : System sys} (r : Reach sys k n c)
      → (tally r).others + (tally r).returns ≤ (tally r).calls * (4 + 3 * k) + 3 * (tally r).wakeups
  runs_are_short r = omega (arith, Reach-IsPaid r)
