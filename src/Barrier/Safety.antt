-- ===== src/Barrier/Safety.antt =====
-- What callers of `Barrier::wait` may rely on (src/barrier.rs).
use pinned_sync.Base.{
  ℕ, ◌+◌, ◌*◌, ◌≤◌, ◌<◌, ◌≡◌, true, none, total, total_mono, total-eq-zero, arith, usize_mod,
}
use pinned_sync.Barrier.{must_wait}
use pinned_sync.Barrier.Threads.{Frame, Pc, sleeping, leaving, System, Reach}
use pinned_sync.Barrier.Invariant.{waits, inside, leads, Inv, Reach-Inv}

-- A call about to return belongs to a generation that has ended.
abbrev pub HasEnded : (epoch : ℕ) → Pc → Type 0
HasEnded e (leaving f _) = f.epoch < e
HasEnded e _ = Unit

waits-le-inside : (e : ℕ) (p : Pc) → waits e p ≤ inside p
waits-le-inside e p = ground arith

leads-le-inside : (p : Pc) → leads p ≤ inside p
leads-le-inside p = ground arith

module _ {k n : ℕ} (pos : 0 < n) (few : n < usize_mod) {s : System} (r : Reach k n s) where
  inv : Inv k n s.mem s.pc
  inv = Reach-Inv pos few r

  waiting_inside : total (waits s.mem.epoch) k s.pc ≤ total inside k s.pc
  waiting_inside =
      total_mono (waits s.mem.epoch) inside k s.pc (λ j. waits-le-inside s.mem.epoch (s.pc j))

  leading_inside : total leads k s.pc ≤ total inside k s.pc
  leading_inside = total_mono leads inside k s.pc (λ j. leads-le-inside (s.pc j))

  -- Calls return in full groups. In every reachable state of a barrier for `n` threads, with
  -- `0 < n < 2 ^ 64`, at
  -- most `n` calls have returned for each generation that has ended, `n` calls have arrived for
  -- each, and fewer than `n` more are counted; a call that is about to return belongs to a
  -- generation that has ended.
  pub no_early_return :
      (i : ℕ)
      → (s.mem.returned ≤ n * s.mem.epoch)
        × (s.mem.arrived ≡ n * s.mem.epoch + s.mem.state.count)
        × (s.mem.state.count < n)
        × HasEnded s.mem.epoch (s.pc i)
  no_early_return i = (
    omega (arith, returned, arrivals, counted, waiting_inside),
    arrivals,
    short,
    ground (arith, placed i),
  )
    where
      open inv use {returns as returned, arrivals, counted, short, placed}

  -- In a reachable state of a barrier for `n` threads, with `0 < n < 2 ^ 64`, in which no call is
  -- under way between its arrival and its return, every call that arrived has returned, and exactly
  -- one in `n` of them returned `true`.
  pub one_leader_each :
      ((i : ℕ) → inside (s.pc i) ≡ 0)
      → (s.mem.returned ≡ n * s.mem.led) × (s.mem.arrived ≡ s.mem.returned)
  one_leader_each quiet =
      let none_inside = total-eq-zero inside k s.pc quiet in
      let all_led : s.mem.epoch ≡ s.mem.led =
        omega (arith, inv.leaders, leading_inside, none_inside) in
      (
        rw (← all_led)
            (omega (arith, inv.returns, inv.arrivals, inv.counted, waiting_inside, none_inside)),
        omega (arith, inv.returns, none_inside),
      )

  -- No wake-up is lost: in a reachable state of a barrier for `n` threads, with `0 < n < 2 ^ 64`,
  -- in which no thread has the lock, a thread that sleeps in `wait` still has to, by the condition
  -- of its loop.
  pub no_lost_wakeup :
      (i : ℕ) (f : Frame)
      → s.mem.owner ≡ none
      → s.pc i ≡ sleeping f
      → must_wait n f.local_gen s.mem.state ≡ true
  unfolding must_wait
  no_lost_wakeup i f free e = ground (arith, inv.asleep i, inv.short)
