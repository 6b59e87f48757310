-- ===== src/Condvar/Panics.antt =====
-- A condition that panics in `wait_while` and `wait_timeout_while` of src/condvar.rs: the guard is
-- a local variable, so it is dropped in unwinding.
use pinned_sync.Base.{ℕ, suc, ◌≡◌, sym, subst, Bool, true, false, arith}
use pinned_sync.Effect.{Outcome, panicked}
use pinned_sync.Std.{Thread}
use pinned_sync.SysCommon.Poison
use pinned_sync.Sys.Interface.{SysMutex, Phase, free, held, SysMutexLaws}
use pinned_sync.Mutex.{Mutex, MutexGuard, is_poisoned}
use pinned_sync.Mutex.Calls.{drop_guard_lem}
use pinned_sync.Condvar.{
  SysCondvar, set_value, evaluate, wait_while, wait_timeout_while, timed_loop,
}

module _ {sys : SysMutex} (InPhase : sys.Raw → Phase → Type 0) (laws : SysMutexLaws sys InPhase)
    {T : Type 0} (cv : SysCondvar sys T) where
  open cv use {World, mutex_of, set_mutex}

  module _ (put_get : (m : Mutex sys T) (w : World) → mutex_of (set_mutex m w) ≡ m) where
    -- What the test of a round does then.
    evaluate_panics :
        (th : Thread) (condition : T → Outcome Bool × T) (guard : MutexGuard sys) (w : World)
        → (condition (mutex_of w).cell).0 ≡ panicked
        → InPhase (mutex_of w).inner (held th.id)
        → guard.poison.panicking ≡ false
        → (w' : World) × (evaluate cv th guard condition w ≡ (panicked, w'))
          × InPhase (mutex_of w').inner free
          × (is_poisoned sys (mutex_of w') ≡ true)
          × ((mutex_of w').cell ≡ (condition (mutex_of w).cell).1)
    unfolding is_poisoned Poison.done Poison.get
    evaluate_panics th condition guard w p h clean =
        let value = (condition (mutex_of w).cell).1 in
        let m : Mutex sys T = record (mutex_of w) { cell = value } in
        let unwinding : Thread = record { id = th.id; panicking = true } in
        let v = set_value cv value w in
        let (raw, d, f) = drop_guard_lem sys InPhase laws unwinding m guard h in
        let m' : Mutex sys T = record m {
          inner = raw;
          poison = Poison.done unwinding guard.poison m.poison;
        } in
        let same = put_get m w in
        let again = put_get m' v in
        (
          set_mutex m' v,
          ground arith,
          subst (λ k. InPhase k.inner free) (sym again) f,
          ground arith,
          ground arith,
        )

    -- When the condition panics while the thread holds the mutex, with a guard from a lock call
    -- outside of any panic, `wait_while` and `wait_timeout_while` panic: they free the mutex and
    -- poison it, and the value is as the condition left it.
    pub panicking_condition_poisons :
        (th : Thread) (condition : T → Outcome Bool × T) (guard : MutexGuard sys) (w : World)
        (fuel dur : ℕ)
        → (condition (mutex_of w).cell).0 ≡ panicked
        → InPhase (mutex_of w).inner (held th.id)
        → guard.poison.panicking ≡ false
        → (w' : World) × (wait_while cv (suc fuel) th condition guard w ≡ (panicked, w'))
          × (wait_timeout_while cv (suc fuel) th guard dur condition w ≡ (panicked, w'))
          × InPhase (mutex_of w').inner free
          × (is_poisoned sys (mutex_of w') ≡ true)
          × ((mutex_of w').cell ≡ (condition (mutex_of w).cell).1)
    unfolding wait_while wait_timeout_while timed_loop
    panicking_condition_poisons th condition guard w fuel dur p h clean =
        let (w', e, is_free, poisoned, written) = evaluate_panics th condition guard w p h clean in
        (w', ground arith, ground arith, is_free, poisoned, written)
