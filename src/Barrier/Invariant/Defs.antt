-- ===== src/Barrier/Invariant/Defs.antt =====
-- The invariant of the threads at a barrier, and what each place in `wait` counts for.
use pinned_sync.Base.{
  ℕ, ◌+◌, ◌*◌, ◌%◌, ◌≤◌, ◌<◌, ◌≡◌, ◌⊎◌, Bool, true, false, none, some, total, ◌==◌, if◌then◌else◌,
  usize_mod,
}
use pinned_sync.SysCommon.Poison
use pinned_sync.Barrier.Threads.{
  Frame, Pc, outside, locked, testing, sleeping, woken, notifying, leaving, failed, Shared,
}

-- The thread has the lock.
abbrev pub holds : Pc → Bool
holds (locked _ _) = true
holds (testing _) = true
holds (notifying _) = true
holds (leaving _ _) = true
holds _ = false

-- It waits for generation number `epoch` to end.
abbrev pub waits : (epoch : ℕ) → Pc → ℕ
waits e (testing f) = if f.epoch == e then 1 else 0
waits e (sleeping f) = if f.epoch == e then 1 else 0
waits e (woken f) = if f.epoch == e then 1 else 0
waits e _ = 0

-- It has arrived and has not returned.
abbrev pub inside : Pc → ℕ
inside (testing _) = 1
inside (sleeping _) = 1
inside (woken _) = 1
inside (notifying _) = 1
inside (leaving _ _) = 1
inside _ = 0

-- It will return `true`.
abbrev pub leads : Pc → ℕ
leads (notifying _) = 1
leads (leaving _ r) = if r.value then 1 else 0
leads _ = 0

-- The guard remembers the thread as it is, and `local_gen` is the generation of its arrival.
abbrev pub IsFramed : ℕ → Frame → Type 0
IsFramed epoch f =
    (f.guard.panicking ≡ f.panicking) × (f.epoch ≤ epoch) × (f.local_gen ≡ f.epoch % usize_mod)

abbrev pub IsPlaced : ℕ → Pc → Type 0
IsPlaced e (locked p g) = g.panicking ≡ p
IsPlaced e (testing f) = IsFramed e f
IsPlaced e (sleeping f) = IsFramed e f
IsPlaced e (woken f) = IsFramed e f
IsPlaced e (notifying f) = IsFramed e f × (f.epoch < e)
IsPlaced e (leaving f _) = IsFramed e f × (f.epoch < e)
IsPlaced e failed = ⊥
IsPlaced e _ = Unit

abbrev pub is_notifying : Pc → Bool
is_notifying (notifying _) = true
is_notifying _ = false

-- The thread that has the lock is a leader that has yet to notify.
abbrev pub notifier : Shared → (ℕ → Pc) → Bool
notifier m pc = elim m.owner [ none ↦ false | some j ↦ is_notifying (pc j) ]

-- The generation that a sleeper waits for is over only while its leader has yet to notify.
abbrev pub IsRightlyAsleep : Shared → (ℕ → Pc) → Pc → Type 0
IsRightlyAsleep m pc (sleeping f) = (f.local_gen ≡ m.state.generation_id) ⊎ (notifier m pc ≡ true)
IsRightlyAsleep m pc _ = Unit

pub record Inv (threads num_threads : ℕ) (m : Shared) (pc : ℕ → Pc) : Type 0 where
  pub owned : (i : ℕ) → holds (pc i) ≡ true → m.owner ≡ some i
  pub owner_holds : (i : ℕ) → m.owner ≡ some i → holds (pc i) ≡ true
  pub sound : Poison.get m.poison ≡ false
  pub placed : (i : ℕ) → IsPlaced m.epoch (pc i)
  pub generation : m.state.generation_id ≡ m.epoch % usize_mod
  pub short : m.state.count < num_threads
  pub counted : m.state.count ≡ total (waits m.epoch) threads pc
  pub arrivals : m.arrived ≡ num_threads * m.epoch + m.state.count
  pub returns : m.arrived ≡ m.returned + total inside threads pc
  pub leaders : m.epoch ≡ m.led + total leads threads pc
  pub asleep : (i : ℕ) → IsRightlyAsleep m pc (pc i)
  pub beyond : (i : ℕ) → threads ≤ i → pc i ≡ outside
