-- ===== src/Barrier/Platform/Small.antt =====
-- A barrier for at most one thread, at which no call of `wait` waits (src/barrier.rs).
use pinned_sync.Base.{ℕ, ◌≤◌, ◌≡◌, refl, Bool, true, false, not, arith}
use pinned_sync.Sys.Interface.{SysMutex}
use pinned_sync.Mutex
use pinned_sync.Barrier.{arrive, BarrierState, uninit_state}
use pinned_sync.Barrier.Platform.{
  Pc, testing, sleeping, woken, leaving, Lock, System, Move, call, lock, lock_poisoned, lock_panics,
  count, leave, wake, Step, pick, notify_all, Reach, made, later,
}

-- The only call of a group completes it.
arrive_alone :
    (n : ℕ) (st : BarrierState)
    → n ≤ 1
    → st.count ≡ 0
    → ((arrive n st).0 ≡ true) × ((arrive n st).1.count ≡ 0)
unfolding arrive
arrive_alone n st small e = (ground arith, ground arith)

module _ {sys : SysMutex} where
  -- In the `while` or its wait, or about to return `false`.
  abbrev pub follows : Pc sys → Bool
  follows (testing _) = true
  follows (sleeping _) = true
  follows (woken _) = true
  follows (leaving _ r) = not r.value
  follows _ = false

  Move-leads :
      {n i : ℕ} {m m' : Lock sys} {p p' : Pc sys}
      → n ≤ 1
      → m.cell.count ≡ 0
      → follows p ≡ false
      → Move sys n i m p m' p'
      → (m'.cell.count ≡ 0) × (follows p' ≡ false)
  unfolding Mutex.lock Mutex.drop_guard Mutex.deref_mut
  Move-leads small z h (call q) = (z, refl)
  Move-leads small z h (lock e) = (ground arith, refl)
  Move-leads small z h (lock_poisoned e d) = (ground arith, refl)
  Move-leads small z h (lock_panics e) = (ground arith, refl)
  Move-leads {n} {m = m} small z h (count {leads} e d) =
      let (leads_it, none_left) = arrive_alone n m.cell small z in (ground arith, ground arith)
  Move-leads small z h (leave e) = (ground arith, refl)
  Move-leads small z h mv = absurd cc

  follows-wake : (p : Pc sys) → follows (wake sys p) ≡ follows p
  follows-wake p = ground arith

  Step-leads :
      {k n : ℕ} {c c' : System sys}
      → n ≤ 1
      → (c.mem.cell.count ≡ 0) × ((i : ℕ) → follows (c.pc i) ≡ false)
      → Step sys k n c c'
      → (c'.mem.cell.count ≡ 0) × ((i : ℕ) → follows (c'.pc i) ≡ false)
  Step-leads small (z, h) (pick i lt mv) =
      let (z', h') = Move-leads small z (h i) mv in (z', λ j. ground (arith, h j))
  Step-leads {c = c} small (z, h) (notify_all i lt e) =
      (z, λ j. ground (arith, h j, follows-wake (c.pc j)))

  -- In every reachable state of a barrier for 0 threads or 1, over any platform, no call of `wait`
  -- is in the loop or in a wait on the condition variable, each that is about to return returns
  -- `true`, and none is counted.
  pub small_barriers_never_wait :
      {k n : ℕ} {c : System sys}
      → n ≤ 1
      → Reach sys k n c
      → (c.mem.cell.count ≡ 0) × ((i : ℕ) → follows (c.pc i) ≡ false)
  unfolding Mutex.boxed Mutex.init Mutex.uninit uninit_state
  small_barriers_never_wait small (made e) = (ground arith, λ i. refl)
  small_barriers_never_wait small (later r st) =
      Step-leads small (small_barriers_never_wait small r) st
