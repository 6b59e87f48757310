-- ===== src/Sys/Unix/RwLock/Runs.antt =====
-- The calls of src/sys/unix/rwlock.rs as runs of their own steps, with no other thread between
-- them.
use pinned_sync.Base.{ℕ, ◌≡◌, refl, sym, subst, ◌⊎◌, Bool, arith, ◌==◌, not, ◌&&◌, if◌then◌else◌}
use pinned_sync.SysCommon.InitAssert
use pinned_sync.Effect.{Outcome, returned, panicked, blocked, undefined, aborted}
use pinned_sync.Sys.Unix.Libc.{PthreadRwLock}
use pinned_sync.Sys.Unix.RwLock.{RwLock, check_init}
use pinned_sync.Sys.Unix.RwLock.Threads.{Pc, outside, refusing, failed, Move, refuse}

-- Where a call ends: it has what it returned, or nothing after a panic, or is before the call of
-- pthreads that waits.
abbrev pub EndsAt : {A : Type 0} → (A → Pc) → (waits : Pc) → Outcome A → Pc → Type 0
EndsAt has waits (returned a) p = p ≡ has a
EndsAt has waits panicked p = (p ≡ outside) ⊎ (p ≡ failed)
EndsAt has waits blocked p = p ≡ waits
EndsAt has waits undefined p = ⊥
EndsAt has waits aborted p = ⊥

module _ (api : PthreadRwLock) (debug : Bool) where
  pub data Run (t : ℕ) : RwLock api debug → Pc → RwLock api debug → Pc → Type 0 where
    stop : {m : RwLock api debug} {p : Pc} → Run t m p m p
    go :
        {m m' m'' : RwLock api debug} {p p' p'' : Pc}
        → Move api debug t m p m' p'
        → Run t m' p' m'' p''
        → Run t m p m'' p''

  -- The call does what some run does.
  abbrev pub Ran :
      {A : Type 0}
      → ℕ
      → RwLock api debug
      → Pc
      → (A → Pc)
      → (waits : Pc) → Outcome A × RwLock api debug
      → Type 0
  Ran t m p has waits (o, m') = (q : Pc) × Run t m p m' q × EndsAt has waits o q

  module _ (t : ℕ) where
    -- A step, to a place that is known.
    pub step :
        {m m' m'' : RwLock api debug} {p p' p'' : Pc} (q : Pc)
        → Move api debug t m p m' p'
        → p' ≡ q
        → Run t m' q m'' p''
        → Run t m p m'' p''
    step {m' = m'} {m''} {p'' = p''} q mv e r = go mv (subst (λ x. Run t m' x m'' p'') (sym e) r)

    pub ran :
        {A : Type 0} {m m' : RwLock api debug} {p q : Pc} (has : A → Pc) (waits : Pc)
        (o : Outcome A) {r : Outcome A × RwLock api debug}
        → r ≡ (o, m')
        → Run t m p m' q
        → EndsAt has waits o q
        → Ran t m p has waits r
    ran {m = m} {p = p} {q} has waits o e run ends =
        subst (Ran t m p has waits) (sym e) (q, run, ends)

  pub check_cases :
      (m : RwLock api debug)
      → (check_init api debug m ≡ (returned tt, m)) ⊎ (check_init api debug m ≡ (panicked, m))
  unfolding check_init InitAssert.get
  check_cases m = ground arith

  module _ (t : ℕ) (m : RwLock api debug) where
    -- What `unlock` answers, and where a call is after it.
    abbrev pub code_of_unlock : ℕ
    code_of_unlock = (api.unlock t m.lock).0

    abbrev pub unlocked : RwLock api debug
    unlocked = record m { lock = (api.unlock t m.lock).1 }

    abbrev pub place_after : Pc
    place_after = if debug && not (code_of_unlock == 0) then failed else outside

    pub place_cases : (place_after ≡ outside) ⊎ (place_after ≡ failed)
    place_cases = ground arith

    pub refuse-Run : (tries : Bool) (p : Pc) → place_after ≡ p → Run t m (refusing tries) unlocked p
    refuse-Run tries p e = step t p (refuse refl) e stop
