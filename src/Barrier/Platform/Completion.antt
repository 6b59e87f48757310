-- ===== src/Barrier/Platform/Completion.antt =====
-- Which calls of `Barrier::wait` have returned when no thread is awake in one (src/barrier.rs).
use pinned_sync.Base.{
  ℕ, ◌+◌, ◌*◌, ◌%◌, ◌≤◌, ◌<◌, ◌≡◌, refl, sym, inl, inr, subst, false, arith, total, total-congr,
  total_mono, usize_mod, Option-cases, lt_of_mul-lt-mul_left,
}
use pinned_sync.Sys.Interface.{SysMutex, Phase, SysMutexLaws}
use pinned_sync.Barrier.Threads as Abstract
use pinned_sync.Barrier.Invariant.{
  Reach-Inv, Inv, IsPlaced, IsRightlyAsleep, notifier, inside, waits, is_notifying,
}
use pinned_sync.Barrier.Platform.{Pc, outside, sleeping, System, Reach, made, later}
use pinned_sync.Barrier.Platform.Relation.{PcLike, Like, at_outside, at_sleeping}
use pinned_sync.Barrier.Platform.Matched.{start-Like}
use pinned_sync.Barrier.Platform.Simulation.{step}
use pinned_sync.Barrier.Platform.Runs.{tally}
use pinned_sync.Barrier.Platform.Progress.{is_awake}
use pinned_sync.Barrier.Platform.Counting.{
  abstract_in_call, in_call, Change, abstract_step-Change, step-Change, calls_lem, in_call_like,
}

-- A change of the calls under way tells the change of the calls that returned.
returned_agree : (r r' t t' u u' : ℕ) → r ≡ t → Change r r' u u' → Change t t' u u' → r' ≡ t'
returned_agree r r' t t' u u' e h h' = ground arith

calls_agree :
    {sys : SysMutex} {InPhase : sys.Raw → Phase → Type 0} (k : ℕ) {c : System sys}
    {a : Abstract.System}
    → Like sys InPhase c a
    → total in_call k c.pc ≡ total abstract_in_call k a.pc
calls_agree {sys} {InPhase} k {c} {a} like =
    total-congr in_call abstract_in_call k c.pc a.pc
      (λ j. in_call_like sys InPhase (c.pc j) (a.pc j) (like.pcs j))

-- While the generations have not wrapped around, a call whose generation is not over arrived in it.
same_epoch :
    (e e' l g : ℕ)
    → l ≡ e % usize_mod
    → e ≤ e'
    → g ≡ e' % usize_mod
    → e' < usize_mod
    → l ≡ g
    → e ≡ e'
same_epoch e e' l g h le h' lt same = omega arith

-- A thread that is not awake counts for what its call counts for, and waits for the present
-- generation.
abbrev AtRest : Abstract.Shared → Abstract.Pc → Type 0
AtRest m q = (inside q ≡ abstract_in_call q) × (waits m.epoch q ≡ abstract_in_call q)

outside_not_awake :
    (sys : SysMutex) (InPhase : sys.Raw → Phase → Type 0) (p : Pc sys) (q : Abstract.Pc)
    → PcLike sys InPhase p q
    → q ≡ Abstract.outside
    → is_awake p ≡ false
outside_not_awake sys InPhase p q h e = ground arith

inside_in_call : (q : Abstract.Pc) → inside q ≤ abstract_in_call q
inside_in_call q = ground arith

sleeping-AtRest :
    (m : Abstract.Shared) (pc : ℕ → Abstract.Pc) (g : Abstract.Frame)
    → IsPlaced m.epoch (Abstract.sleeping g)
    → IsRightlyAsleep m pc (Abstract.sleeping g)
    → notifier m pc ≡ false
    → m.state.generation_id ≡ m.epoch % usize_mod
    → m.epoch < usize_mod
    → AtRest m (Abstract.sleeping g)
sleeping-AtRest m pc g (_, le, local) right quiet gen e =
    let same = same_epoch g.epoch m.epoch g.local_gen m.state.generation_id local le gen e in
    (refl, ground arith)

awake_not-AtRest :
    (sys : SysMutex) (InPhase : sys.Raw → Phase → Type 0) (m : Abstract.Shared)
    (pc : ℕ → Abstract.Pc) (p : Pc sys) (q : Abstract.Pc)
    → is_awake p ≡ false
    → PcLike sys InPhase p q
    → IsPlaced m.epoch q
    → IsRightlyAsleep m pc q
    → notifier m pc ≡ false
    → m.state.generation_id ≡ m.epoch % usize_mod
    → m.epoch < usize_mod
    → AtRest m q
awake_not-AtRest sys InPhase m pc outside q h l placed right quiet gen e =
    ground (arith, at_outside sys InPhase q l)
awake_not-AtRest sys InPhase m pc (sleeping f) q h l placed right quiet gen e =
    let (g, eq, _) = at_sleeping sys InPhase f q l in
    subst (AtRest m) (sym eq) (
      sleeping-AtRest m pc g (subst (IsPlaced m.epoch) eq placed)
        (subst (IsRightlyAsleep m pc) eq right) quiet gen e)
awake_not-AtRest sys InPhase m pc _ q h l placed right quiet gen e = absurd cc

module _ (sys : SysMutex) (InPhase : sys.Raw → Phase → Type 0) (laws : SysMutexLaws sys InPhase)
    {k n : ℕ} (pos : 0 < n) (few : n < usize_mod) where
  -- The state of Barrier/Threads that looks like the end of a run has the same count of returned
  -- calls.
  matched_run :
      {c : System sys} (r : Reach sys k n c)
      → (a : Abstract.System) × Abstract.Reach k n a
        × Like sys InPhase c a
        × (a.mem.returned ≡ (tally r).returns)
  unfolding tally
  matched_run (made {m} e) = (Abstract.start, Abstract.here, start-Like sys InPhase laws m e, refl)
  matched_run (later r st) =
      let (a, ra, like, same) = matched_run r in
      let (a', sa, like') = step sys InPhase laws pos few like ra st in
      (
        a',
        Abstract.later ra sa,
        like',
        returned_agree a.mem.returned a'.mem.returned (tally r).returns _
            (total abstract_in_call k a.pc) (total abstract_in_call k a'.pc) same
            (abstract_step-Change sa)
            (ground (arith, (step-Change st (tally r)).0, calls_agree k like, calls_agree k like')),
      )

  module _ {c : System sys} {a : Abstract.System} (like : Like sys InPhase c a)
      (inv : Inv k n a.mem a.pc) (quiet : (i : ℕ) → is_awake (c.pc i) ≡ false) where
    not_notifying :
        (p : Pc sys) (q : Abstract.Pc)
        → PcLike sys InPhase p q
        → is_awake p ≡ false
        → is_notifying q ≡ false
    not_notifying p q l h = ground arith

    none_notifies : notifier a.mem a.pc ≡ false
    none_notifies = elim (Option-cases a.mem.owner) [
      | inl free ↦ ground (arith, free)
      | inr (j, e) ↦ ground (arith, e, not_notifying (c.pc j) (a.pc j) (like.pcs j) (quiet j))
    ]

    full_groups :
        a.mem.epoch < usize_mod → (a.mem.returned ≡ n * a.mem.epoch) × (total in_call k c.pc < n)
    full_groups e =
        let rest : (i : ℕ) → AtRest a.mem (a.pc i) = λ i.
          awake_not-AtRest sys InPhase a.mem a.pc (c.pc i) (a.pc i) (quiet i) (like.pcs i)
            (inv.placed i) (inv.asleep i) none_notifies inv.generation e in
        ground (
          arith,
          total-congr inside abstract_in_call k a.pc a.pc (λ i. (rest i).0),
          total-congr (waits a.mem.epoch) abstract_in_call k a.pc a.pc (λ i. (rest i).1),
          calls_agree k like,
          inv.counted,
          inv.arrivals,
          inv.returns,
          inv.short,
        )

    arrived_le : a.mem.arrived ≤ a.mem.returned + total in_call k c.pc
    arrived_le = omega (
      arith,
      total_mono inside abstract_in_call k a.pc (λ i. inside_in_call (a.pc i)),
      calls_agree k like,
      inv.returns,
    )

    few_groups : a.mem.returned + total in_call k c.pc < n * usize_mod → a.mem.epoch < usize_mod
    few_groups lt = lt_of_mul-lt-mul_left n (omega (arith, lt, arrived_le, inv.arrivals))

  -- Let every thread of a reachable state of a barrier for `n` threads, with `0 < n < 2 ^ 64`, be
  -- outside `wait` or asleep in it, and let fewer than `n * 2 ^ 64` calls of `wait` have begun.
  -- Then the calls that returned are `n` times some number of groups, and fewer than `n` have not.
  pub full_groups_return :
      {c : System sys} (r : Reach sys k n c)
      → ((i : ℕ) → is_awake (c.pc i) ≡ false)
      → (tally r).calls < n * usize_mod
      → (groups : ℕ) × ((tally r).returns ≡ n * groups)
        × ((tally r).calls ≡ n * groups + total in_call k c.pc)
        × (total in_call k c.pc < n)
  full_groups_return {c} r quiet lt =
      let (a, ra, like, same) = matched_run r in
      let inv = Reach-Inv pos few ra in
      let calls = calls_lem r in
      let (returned, short) =
        full_groups like inv quiet (few_groups like inv quiet (ground arith)) in
      (a.mem.epoch, ground arith, ground arith, short)

  -- A thread that is not one of the `k` is outside.
  pub beyond_is_asleep :
      {c : System sys} (r : Reach sys k n c)
      → ((i : ℕ) → i < k → is_awake (c.pc i) ≡ false)
      → (i : ℕ) → is_awake (c.pc i) ≡ false
  beyond_is_asleep {c} r h i =
      let (a, ra, like, _) = matched_run r in
      ground (
        arith,
        h i,
        (Reach-Inv pos few ra).beyond i,
        outside_not_awake sys InPhase (c.pc i) (a.pc i) (like.pcs i),
      )
