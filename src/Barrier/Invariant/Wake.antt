-- ===== src/Barrier/Invariant/Wake.antt =====
-- The invariant over `notify_all`, by which the leader wakes every thread that sleeps.
use pinned_sync.Base.{ℕ, ◌<◌, ◌≡◌, true, total, update, arith, total-update, total-congr}
use pinned_sync.Barrier.Threads.{
  Frame, Pc, outside, entering, locked, testing, sleeping, woken, notifying, leaving, failed,
  Shared, wake,
}
use pinned_sync.Barrier.Invariant.Defs.{holds, waits, inside, leads, IsPlaced, Inv}

-- Waking changes nothing that the invariant counts.
holds-wake : (p : Pc) → holds (wake p) ≡ holds p
holds-wake p = ground arith

IsPlaced-wake : (e : ℕ) (p : Pc) → IsPlaced e p → IsPlaced e (wake p)
IsPlaced-wake e outside h = h
IsPlaced-wake e (entering p) h = h
IsPlaced-wake e (locked p g) h = h
IsPlaced-wake e (testing f) h = h
IsPlaced-wake e (sleeping f) h = h
IsPlaced-wake e (woken f) h = h
IsPlaced-wake e (notifying f) h = h
IsPlaced-wake e (leaving f r) h = h
IsPlaced-wake e failed h = h

module _ (k : ℕ) (pc : ℕ → Pc) where
  abbrev woke : ℕ → Pc
  woke j = wake (pc j)

  total-waits-wake : (e : ℕ) → total (waits e) k woke ≡ total (waits e) k pc
  total-waits-wake e = total-congr (waits e) (waits e) k woke pc (λ i. ground arith)

  total-inside-wake : total inside k woke ≡ total inside k pc
  total-inside-wake = total-congr inside inside k woke pc (λ i. ground arith)

  total-leads-wake : total leads k woke ≡ total leads k pc
  total-leads-wake = total-congr leads leads k woke pc (λ i. ground arith)

abbrev left : Frame → Pc
left f = leaving f (record { value = true })

module _ {k n : ℕ} {m : Shared} {pc : ℕ → Pc} (inv : Inv k n m pc) (i : ℕ) (f : Frame) where
  open inv use {
    owned, owner_holds, sound, placed, generation, short, counted as counts, arrivals, returns,
    leaders, asleep, beyond,
  }

  pub wake-Inv : i < k → pc i ≡ notifying f → Inv k n m (update (woke k pc) i (left f))
  wake-Inv lt e = record {
    owned = λ j h. ground (arith, owned j, owned i, holds-wake (pc j));
    owner_holds = λ j h. ground (arith, owner_holds j, owned i, holds-wake (pc j));
    sound = sound;
    placed = λ j. ground (arith, placed j, placed i, IsPlaced-wake m.epoch (pc j));
    generation = generation;
    short = short;
    counted = ground (
      arith,
      total-update (waits m.epoch) k (woke k pc) i (left f) lt,
      total-waits-wake k pc m.epoch,
    );
    arrivals = arrivals;
    returns =
        ground (arith, total-update inside k (woke k pc) i (left f) lt, total-inside-wake k pc);
    leaders = ground (arith, total-update leads k (woke k pc) i (left f) lt, total-leads-wake k pc);
    asleep = λ j. ground arith;
    beyond = λ j h. ground (arith, beyond j);
  }
