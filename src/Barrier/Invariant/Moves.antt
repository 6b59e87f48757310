-- ===== src/Barrier/Invariant/Moves.antt =====
-- Each field of the invariant over a step of thread `i`.
use pinned_sync.Base.{
  ℕ, ◌+◌, ◌*◌, ◌%◌, ◌≤◌, ◌<◌, ◌≡◌, true, false, none, some, total, usize_mod, update, refl, arith,
  total-update, total-eq-zero, le-total,
}
use pinned_sync.Std.{ok, err}
use pinned_sync.SysCommon.Poison
use pinned_sync.Barrier.{is_leader, arrive, must_wait}
use pinned_sync.Barrier.Threads.{
  Pc, testing, sleeping, woken, notifying, Shared, thread, Move, call, lock, lock_poisoned, count,
  sleep, relock, relock_poisoned, pass,
}
use pinned_sync.Barrier.Invariant.Defs.{holds, waits, inside, leads, IsPlaced, IsRightlyAsleep, Inv}

-- The premises of a move, for the clauses that do not name them.
abbrev Premise : {n i : ℕ} {m m' : Shared} {p p' : Pc} → Move n i m p m' p' → Type 0
Premise {n} {i} {m} (lock {p} {g} _ _) =
    (m.owner ≡ none) × (Poison.borrow (thread i p) m.poison ≡ ok g)
Premise {n} {i} {m} (lock_poisoned {p} {e} _ _) =
    (m.owner ≡ none) × (Poison.borrow (thread i p) m.poison ≡ err e)
Premise {n} {i} {m} (count {leads} {st} _) = arrive n m.state ≡ (leads, st)
Premise {n} {i} {m} (sleep {f} _) = must_wait n f.local_gen m.state ≡ true
Premise {n} {i} {m} (relock _ _) = (m.owner ≡ none) × (Poison.get m.poison ≡ false)
Premise {n} {i} {m} (relock_poisoned _ _) = (m.owner ≡ none) × (Poison.get m.poison ≡ true)
Premise {n} {i} {m} (pass {f} _) = must_wait n f.local_gen m.state ≡ false
Premise _ = Unit

premise : {n i : ℕ} {m m' : Shared} {p p' : Pc} (mv : Move n i m p m' p') → Premise mv
premise (lock e b) = (e, b)
premise (lock_poisoned e b) = (e, b)
premise (count e) = e
premise (sleep e) = e
premise (relock e b) = (e, b)
premise (relock_poisoned e b) = (e, b)
premise (pass e) = e
premise _ = tt

module _ {k n : ℕ} {m : Shared} {pc : ℕ → Pc} (inv : Inv k n m pc) (few : n < usize_mod)
    (i : ℕ) where
  open inv use {
    owned, owner_holds, sound, placed, generation, short, counted as counts, arrivals, returns,
    leaders, asleep, beyond,
  }

  -- What a step of thread `i` has at hand.
  record Mover (p p' : Pc) : Type 0 where
    here : pc i ≡ p
    mine : IsPlaced m.epoch p
    waiting :
        (e : ℕ) → total (waits e) k (update pc i p') + waits e p ≡ total (waits e) k pc + waits e p'
    within : total inside k (update pc i p') + inside p ≡ total inside k pc + inside p'
    leading : total leads k (update pc i p') + leads p ≡ total leads k pc + leads p'
    own_wait : waits m.epoch p ≤ total (waits m.epoch) k pc

  mover : i < k → (p' : Pc) → Mover (pc i) p'
  mover lt p' = record {
    here = refl;
    mine = placed i;
    waiting = λ e. total-update (waits e) k pc i p' lt;
    within = total-update inside k pc i p' lt;
    leading = total-update leads k pc i p' lt;
    own_wait = le-total (waits m.epoch) k pc i lt;
  }

  Move-owned :
      {p p' : Pc} {m' : Shared}
      → Move n i m p m' p'
      → Mover p p'
      → (j : ℕ) → holds (update pc i p' j) ≡ true
      → m'.owner ≡ some j
  Move-owned (call p) f j h = ground (arith, owned j, owned i)
  Move-owned mv f j h = ground (arith, premise mv, owned j, owned i)

  Move-owner_holds :
      {p p' : Pc} {m' : Shared}
      → Move n i m p m' p'
      → Mover p p'
      → (j : ℕ) → m'.owner ≡ some j
      → holds (update pc i p' j) ≡ true
  Move-owner_holds (call p) f j h = ground (arith, owner_holds j, owned i)
  Move-owner_holds mv f j h = ground (arith, premise mv, owner_holds j, owned i)

  Move-sound :
      {p p' : Pc} {m' : Shared} → Move n i m p m' p' → Mover p p' → Poison.get m'.poison ≡ false
  unfolding Poison.get Poison.done Poison.borrow
  Move-sound (call p) f = ground arith
  Move-sound mv f = ground (arith, premise mv)

  Move-IsPlaced :
      {p p' : Pc} {m' : Shared}
      → Move n i m p m' p'
      → Mover p p'
      → (j : ℕ) → IsPlaced m'.epoch (update pc i p' j)
  unfolding Poison.get Poison.borrow arrive must_wait
  Move-IsPlaced (call p) f j = ground (arith, placed j)
  Move-IsPlaced mv f j = ground (arith, premise mv, placed j)

  Move-generation :
      {p p' : Pc} {m' : Shared}
      → Move n i m p m' p'
      → Mover p p'
      → m'.state.generation_id ≡ m'.epoch % usize_mod
  unfolding arrive
  Move-generation (call p) f = ground arith
  Move-generation mv f = ground (arith, premise mv)

  Move-short : {p p' : Pc} {m' : Shared} → Move n i m p m' p' → Mover p p' → m'.state.count < n
  unfolding arrive
  Move-short (call p) f = ground arith
  Move-short mv f = ground (arith, premise mv)

  Move-arrivals :
      {p p' : Pc} {m' : Shared}
      → Move n i m p m' p'
      → Mover p p'
      → m'.arrived ≡ n * m'.epoch + m'.state.count
  unfolding arrive
  Move-arrivals (count {leads = true} e) f = ground arith
  Move-arrivals (count {leads = false} e) f = ground arith
  Move-arrivals mv f = ground (arith, premise mv)

  Move-returns :
      {p p' : Pc} {m' : Shared}
      → Move n i m p m' p'
      → Mover p p'
      → m'.arrived ≡ m'.returned + total inside k (update pc i p')
  Move-returns (call p) f = ground arith
  Move-returns mv f = ground (arith, premise mv)

  Move-leaders :
      {p p' : Pc} {m' : Shared}
      → Move n i m p m' p'
      → Mover p p'
      → m'.epoch ≡ m'.led + total leads k (update pc i p')
  unfolding is_leader
  Move-leaders (call p) f = ground arith
  Move-leaders mv f = ground (arith, premise mv)

  -- In a new generation nobody waits yet.
  none_waiting :
      (p' : Pc) → waits (m.epoch + 1) p' ≡ 0 → total (waits (m.epoch + 1)) k (update pc i p') ≡ 0
  none_waiting p' h =
      total-eq-zero (waits (m.epoch + 1)) k (update pc i p')
        (λ j. ground (arith, fresh (pc j) (placed j)))
    where
      fresh : (p : Pc) → IsPlaced m.epoch p → waits (m.epoch + 1) p ≡ 0
      fresh (testing f) h = ground arith
      fresh (sleeping f) h = ground arith
      fresh (woken f) h = ground arith
      fresh _ h = refl

  Move-counted :
      {p p' : Pc} {m' : Shared}
      → Move n i m p m' p'
      → Mover p p'
      → m'.state.count ≡ total (waits m'.epoch) k (update pc i p')
  unfolding arrive must_wait
  Move-counted (count {p} {g} {leads = true} e) f = ground (
    arith,
    none_waiting
        (notifying
          (record { panicking = p; guard = g; local_gen = m.state.generation_id; epoch = m.epoch }))
        refl,
  )
  Move-counted (count {leads = false} e) f = ground (arith, f.waiting m.epoch)
  Move-counted mv f = ground (arith, premise mv, f.waiting m.epoch)

  Move-asleep :
      {p p' : Pc} {m' : Shared}
      → Move n i m p m' p'
      → Mover p p'
      → (j : ℕ) → IsRightlyAsleep m' (update pc i p') (update pc i p' j)
  unfolding arrive must_wait
  Move-asleep (count {leads = true} e) f j = ground (arith, asleep j, owned i)
  Move-asleep (count {leads = false} e) f j = ground (arith, asleep j, owned i)
  Move-asleep mv f j = ground (arith, premise mv, asleep j, owned i)

  pub Move-Inv :
      {p' : Pc} {m' : Shared} → i < k → Move n i m (pc i) m' p' → Inv k n m' (update pc i p')
  Move-Inv {p'} lt mv = record {
    owned = Move-owned mv f;
    owner_holds = Move-owner_holds mv f;
    sound = Move-sound mv f;
    placed = Move-IsPlaced mv f;
    generation = Move-generation mv f;
    short = Move-short mv f;
    counted = Move-counted mv f;
    arrivals = Move-arrivals mv f;
    returns = Move-returns mv f;
    leaders = Move-leaders mv f;
    asleep = Move-asleep mv f;
    beyond = λ j h. ground (arith, beyond j);
  }
    where
      f : Mover (pc i) p'
      f = mover lt p'
