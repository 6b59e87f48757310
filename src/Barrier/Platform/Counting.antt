-- ===== src/Barrier/Platform/Counting.antt =====
-- How many calls of `Barrier::wait` are under way, and how a step changes that (src/barrier.rs).
use pinned_sync.Base.{
  ℕ, suc, ◌+◌, ◌<◌, ◌≡◌, refl, ◌⊎◌, inl, inr, true, false, arith, update, total, total-update,
  total-congr, total-eq-zero,
}
use pinned_sync.Sys.Interface.{SysMutex, Phase}
use pinned_sync.Barrier.Threads as Abstract
use pinned_sync.Barrier.Platform.{
  Pc, outside, leaving, Lock, System, Move, call, count, leave, wake, Step, pick, notify_all, Reach,
  made, later,
}
use pinned_sync.Barrier.Platform.Relation.{PcLike}
use pinned_sync.Barrier.Platform.Runs.{Tally, tally_move, tally_step, tally}

-- The thread is in a call.
abbrev pub abstract_in_call : Abstract.Pc → ℕ
abstract_in_call Abstract.outside = 0
abstract_in_call _ = 1

abbrev pub in_call : {sys : SysMutex} → Pc sys → ℕ
in_call outside = 0
in_call _ = 1

-- What a step does to the number of returned calls, `r` and then `r'`, and to that of calls under
-- way.
abbrev pub Change : (r r' u u' : ℕ) → Type 0
Change r r' u u' = ((r' ≡ r) × (u' ≡ suc u)) ⊎ ((r' ≡ suc r) × (suc u' ≡ u)) ⊎ ((r' ≡ r) × (u' ≡ u))

abstract_move-Change :
    {n i k : ℕ} {m m' : Abstract.Shared} {p p' : Abstract.Pc} (pc : ℕ → Abstract.Pc)
    → i < k
    → pc i ≡ p
    → Abstract.Move n i m p m' p'
    → Change m.returned m'.returned
        (total abstract_in_call k pc)
        (total abstract_in_call k (update pc i p'))
abstract_move-Change {i = i} {k} {p' = p'} pc lt e (Abstract.call q) =
    inl (ground (arith, total-update abstract_in_call k pc i p' lt))
abstract_move-Change {i = i} {k} {p' = p'} pc lt e Abstract.leave =
    inr (inl (ground (arith, total-update abstract_in_call k pc i p' lt)))
abstract_move-Change {i = i} {k} {p' = p'} pc lt e (Abstract.count {leads = true} h) =
    inr (inr (ground (arith, total-update abstract_in_call k pc i p' lt)))
abstract_move-Change {i = i} {k} {p' = p'} pc lt e (Abstract.count {leads = false} h) =
    inr (inr (ground (arith, total-update abstract_in_call k pc i p' lt)))
abstract_move-Change {i = i} {k} {p' = p'} pc lt e _ =
    inr (inr (ground (arith, total-update abstract_in_call k pc i p' lt)))

abstract_in_call-wake : (p : Abstract.Pc) → abstract_in_call (Abstract.wake p) ≡ abstract_in_call p
abstract_in_call-wake p = ground arith

pub abstract_step-Change :
    {k n : ℕ} {a a' : Abstract.System}
    → Abstract.Step k n a a'
    → Change a.mem.returned a'.mem.returned
        (total abstract_in_call k a.pc)
        (total abstract_in_call k a'.pc)
abstract_step-Change {a = a} (Abstract.pick i lt mv) = abstract_move-Change a.pc lt refl mv
abstract_step-Change {k} {a = a} (Abstract.notify_all i {f} lt e) = inr (
    inr (
      refl,
      ground (
        arith,
        total-congr abstract_in_call abstract_in_call k (λ j. Abstract.wake (a.pc j)) a.pc
            (λ j. abstract_in_call-wake (a.pc j)),
        total-update abstract_in_call k (λ j. Abstract.wake (a.pc j)) i
            (Abstract.leaving f (record { value = true })) lt,
      ),
    ))

module _ {sys : SysMutex} where
  move-Change :
      {n i k : ℕ} {m m' : Lock sys} {p p' : Pc sys} (t : Tally) (pc : ℕ → Pc sys)
      → i < k
      → pc i ≡ p
      → (mv : Move sys n i m p m' p')
      → Change t.returns
          (tally_move mv t).returns
          (total in_call k pc)
          (total in_call k (update pc i p'))
        × ((tally_move mv t).calls + t.returns + total in_call k pc
            ≡ t.calls + (tally_move mv t).returns + total in_call k (update pc i p'))
  move-Change {i = i} {k} {p' = p'} t pc lt e (call q) =
      let h = total-update in_call k pc i p' lt in (inl (ground arith), ground arith)
  move-Change {i = i} {k} {p' = p'} t pc lt e (leave d) =
      let h = total-update in_call k pc i p' lt in (inr (inl (ground arith)), ground arith)
  move-Change {i = i} {k} {p' = p'} t pc lt e (count {leads = true} h d) =
      let h = total-update in_call k pc i p' lt in (inr (inr (ground arith)), ground arith)
  move-Change {i = i} {k} {p' = p'} t pc lt e (count {leads = false} h d) =
      let h = total-update in_call k pc i p' lt in (inr (inr (ground arith)), ground arith)
  move-Change {i = i} {k} {p' = p'} t pc lt e _ =
      let h = total-update in_call k pc i p' lt in (inr (inr (ground arith)), ground arith)

  in_call-wake : (p : Pc sys) → in_call (wake sys p) ≡ in_call p
  in_call-wake p = ground arith

  pub step-Change :
      {k n : ℕ} {c c' : System sys} (st : Step sys k n c c') (t : Tally)
      → Change t.returns (tally_step st t).returns (total in_call k c.pc) (total in_call k c'.pc)
        × ((tally_step st t).calls + t.returns + total in_call k c.pc
            ≡ t.calls + (tally_step st t).returns + total in_call k c'.pc)
  step-Change {c = c} (pick i lt mv) t = move-Change t c.pc lt refl mv
  step-Change {k} {c = c} (notify_all i {f} lt e) t =
      let same =
        total-congr in_call in_call k (λ j. wake sys (c.pc j)) c.pc (λ j. in_call-wake (c.pc j)) in
      let h =
        total-update in_call k (λ j. wake sys (c.pc j)) i (leaving f (record { value = true }))
          lt in
      (inr (inr (refl, ground arith)), ground arith)

  -- The calls that began are those that returned and those under way.
  pub calls_lem :
      {k n : ℕ} {c : System sys} (r : Reach sys k n c)
      → (tally r).calls ≡ (tally r).returns + total in_call k c.pc
  unfolding tally
  calls_lem {k} (made e) = omega (arith, total-eq-zero in_call k (λ _. outside) (λ _. refl))
  calls_lem (later r st) = omega (arith, calls_lem r, (step-Change st (tally r)).1)

pub in_call_like :
    (sys : SysMutex) (InPhase : sys.Raw → Phase → Type 0) (p : Pc sys) (q : Abstract.Pc)
    → PcLike sys InPhase p q
    → in_call p ≡ abstract_in_call q
in_call_like sys InPhase p q h = ground arith
