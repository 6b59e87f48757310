-- ===== src/Condvar/Timing/Returns.antt =====
-- Whether `wait_timeout_while` of src/condvar.rs returns.
use pinned_sync.Base.{
  ℕ, zero, suc, ◌+◌, ◌-◌, ◌*◌, ◌<◌, ◌≤◌, ◌≡◌, refl, ap, Bool, true, false, arith, Bool-cases, ltb,
  inl, inr, ◌⊎◌,
}
use native.Mathlib.Nat.{mul-le-mul_right}
use pinned_sync.Effect.{Outcome, returned, M}
use pinned_sync.Std.{ok, err, LockResult, Thread}
use pinned_sync.Sys.Interface.{SysMutex}
use pinned_sync.Mutex.{MutexGuard}
use pinned_sync.Condvar.{
  SysCondvar, set_value, evaluate, or_return, wait_timeout, timed_loop, wait_timeout_while,
}
use pinned_sync.Condvar.Timing.{Timed, TimedEnded, timed_loop_ends, wait_timeout_reports}

*_mono : (a b k : ℕ) → a ≤ b → a * k ≤ b * k
*_mono a b k h = mul-le-mul_right k h

*_step : (a b k : ℕ) → a < b → a * k + k ≤ b * k
*_step a b k h = ground (arith, mul-le-mul_right {m = suc a} {n = b} k (omega (arith, h)))

first_left :
    (most now dur still c : ℕ)
    → still ≤ most
    → suc dur * suc most + most < suc c
    → (suc (now + dur) - now) * suc most + still ≤ c
first_left most now dur still c s h =
    let e : suc (now + dur) - now ≡ suc dur = omega arith in
    let e' = ap (λ x. x * suc most) e in omega (arith, e', s, h)

≤_of_ltb : (a b : ℕ) → ltb a b ≡ false → b ≤ a
≤_of_ltb a b h = ground arith

module _ {sys : SysMutex} {T : Type 0} (cv : SysCondvar sys T) where
  open cv use {World, mutex_of, now, wait_timeout as sys_wait_timeout}

  -- From `w` to `w'` the clock moves, or stands still one time less.
  abbrev pub MovesOn : (still : World → ℕ) → World → World → Type 0
  MovesOn still w w' = (now w < now w') ⊎ ((now w ≤ now w') × (still w' < still w))

  -- In a good world every timed wait of the thread on the platform returns to a good world, no
  -- later than `latency` after the time it is given. The clock may stand still over `still w` waits
  -- in a row, and over at most `most`.
  abbrev pub Ticks : Thread → (World → Type 0) → (still : World → ℕ) → (most latency : ℕ) → Type 0
  Ticks th Good still most latency =
      (g : sys.RawGuard) (dur : ℕ) (w : World)
      → Good w
      → (woken : Bool) × (raw : sys.RawGuard) × (w' : World) × (sys_wait_timeout th g dur w
          ≡ (returned (woken, raw), w'))
        × MovesOn still w w'
        × (still w' ≤ most)
        × (now w' ≤ now w + dur + latency)
        × Good w'

  -- A closure that writes the value keeps the world good, and does not set the clock.
  abbrev pub Keeps : (World → Type 0) → (still : World → ℕ) → Type 0
  Keeps Good still =
      (v : T) (w : World)
      → Good w
      → (now (set_value cv v w) ≡ now w)
        × (still (set_value cv v w) ≡ still w)
        × Good (set_value cv v w)

  module _ (th : Thread) (Good : World → Type 0) (still : World → ℕ) (most latency : ℕ)
      (ticks : Ticks th Good still most latency) (keeps : Keeps Good still)
      (condition : T → Outcome Bool × T)
      (answers : (v : T) → (b : Bool) × ((condition v).0 ≡ returned b)) where
    wait_returns :
        (guard : MutexGuard sys) (dur : ℕ) (w : World)
        → Good w
        → (r : LockResult (Timed cv)) × (w' : World) × (wait_timeout cv th guard dur w
            ≡ (returned r, w'))
          × MovesOn still w w'
          × (still w' ≤ most)
          × (now w' ≤ now w + dur + latency)
          × Good w'
    wait_returns guard dur w good =
        let (woken, raw, w', e, moves, few, soon, good') = ticks guard.guard dur w good in
        (_, w', wait_timeout_reports cv th guard dur woken raw w w' e, moves, few, soon, good')

    -- `m` returns, at the time `limit` at the latest.
    abbrev Returns : (limit : ℕ) → M World (LockResult (Timed cv)) → World → Type 0
    Returns limit m w =
        (r : LockResult (Timed cv)) × (w' : World) × (m w ≡ (returned r, w')) × (now w' ≤ limit)

    -- How many rounds the loop has left, for a wait that may last until `end`.
    abbrev left : (end : ℕ) → World → ℕ
    left end w = (suc end - now w) * suc most + still w

    fewer_left :
        (end : ℕ) (w w' : World)
        → now w ≤ end
        → still w' ≤ most
        → MovesOn still w w'
        → left end w' < left end w
    fewer_left end w w' h s (inl later) =
        let k = *_step (suc end - now w') (suc end - now w) (suc most) (omega (arith, later, h)) in
        omega (arith, k, s)
    fewer_left end w w' h s (inr (later, less)) =
        let k = *_mono (suc end - now w') (suc end - now w) (suc most) (omega (arith, later)) in
        omega (arith, k, less)

    advances : (w w' : World) → MovesOn still w w' → {t : ℕ} → t ≤ now w → t ≤ now w'
    advances w w' (inl later) h = omega (arith, later, h)
    advances w w' (inr (later, less)) h = omega (arith, later, h)

    left_same :
        (end : ℕ) (w v : World) → now v ≡ now w → still v ≡ still w → left end v ≡ left end w
    left_same end w v p q = cc

    left_none : (end : ℕ) (w : World) → left end w ≤ 0 → end < now w
    left_none end w h = elim (Bool-cases (ltb end (now w))) [
      | inl late ↦ ground arith
      | inr early ↦
          let k = *_step 0 (suc end - now w) (suc most) (ground arith) in
          absurd (omega (arith, k, h))
    ]

    -- The rest of a round that waits, if the next round returns.
    after_wait :
        (limit : ℕ) (next : MutexGuard sys → M World (LockResult (Timed cv))) (u : World)
        (r : LockResult (Timed cv))
        → now u ≤ limit
        → ((g : MutexGuard sys) → Returns limit (next g) u)
        → Returns limit (or_return cv (λ p. next p.0) (λ p. p) r) u
    after_wait limit next u (ok (g, t)) h ih = ih g
    after_wait limit next u (err x) h ih = (_, u, refl, h)

    -- The test of a round answers, and leaves a good world at the same time.
    evaluates :
        (guard : MutexGuard sys) (w : World)
        → Good w
        → (b : Bool) × (v : World) × (evaluate cv th guard condition w ≡ (returned b, v))
          × (now v ≡ now w)
          × (still v ≡ still w)
          × Good v
    evaluates guard w good =
        let (b, answer) = answers (mutex_of w).cell in
        let (same, still_same, good') = keeps (condition (mutex_of w).cell).1 w good in
        (b, set_value cv (condition (mutex_of w).cell).1 w, ground arith, same, still_same, good')

    loop-Returns :
        (c start dur : ℕ) (guard : MutexGuard sys) (w : World)
        → Good w
        → start ≤ now w
        → now w ≤ start + dur + latency
        → left (start + dur) w ≤ c
        → Returns (start + dur + latency) (timed_loop cv (suc c) th start dur condition guard) w
    unfolding timed_loop
    loop-Returns zero start dur guard w good h l room =
        let (b, v, e, same, still_same, good') = evaluates guard w good in
        let late = left_none (start + dur) w room in
        elim (Bool-cases b) [
          | inl held ↦
              (ok (guard, record { value = true }), v, ground arith, omega (arith, same, l))
          | inr failed ↦
              (ok (guard, record { value = false }), v, ground arith, omega (arith, same, l))
        ]
    loop-Returns (suc c) start dur guard w good h l room =
        let (b, v, e, same, still_same, good') = evaluates guard w good in
        elim (Bool-cases b) [
          | inl held ↦ elim (Bool-cases (ltb dur (now v - start))) [
            | inl late ↦
                (ok (guard, record { value = true }), v, ground arith, omega (arith, same, l))
            | inr early ↦
                let (r, u, waited, moves, few, soon, good'') =
                  wait_returns guard (dur - (now v - start)) v good' in
                let in_time = ≤_of_ltb dur (now v - start) early in
                let same_left = left_same (start + dur) w v same still_same in
                let fewer =
                  fewer_left (start + dur) v u (omega (arith, in_time, same, h)) few moves in
                let limit : now u ≤ start + dur + latency = omega (arith, in_time, same, h, soon) in
                let (r', w', e', l') =
                  after_wait (start + dur + latency) (timed_loop cv (suc c) th start dur condition)
                    u r limit
                    (λ g.
                      loop-Returns c start dur g u good''
                        (advances v u moves (omega (arith, same, h))) limit
                        (omega (arith, same_left, fewer, room))) in
                (r', w', ground arith, l')
          ]
          | inr failed ↦
              (ok (guard, record { value = false }), v, ground arith, omega (arith, same, l))
        ]

    -- If in a good world every timed wait of the platform returns to a good world, at most `latency`
    -- after the time it is given, with the clock standing still over at most `most` waits in a row,
    -- and the condition never panics, then `wait_timeout_while` returns from a good world, at most
    -- `dur + latency` after its start, in nanoseconds, and with enough fuel for
    -- `(dur + 1) * (most + 1) + most + 1` rounds, whether the condition ever turns false or not. It
    -- ends in one of the three ways of `TimedEnded`.
    pub wait_timeout_while_returns :
        (fuel dur : ℕ) (guard : MutexGuard sys) (w : World)
        → Good w
        → still w ≤ most
        → suc dur * suc most + most < fuel
        → (r : LockResult (Timed cv)) × (w' : World) × (wait_timeout_while cv fuel th guard dur
              condition w
            ≡ (returned r, w'))
          × (now w' ≤ now w + dur + latency)
          × TimedEnded cv th (now w) dur condition r w'
    unfolding wait_timeout_while
    wait_timeout_while_returns zero dur guard w good s h = absurd (omega arith)
    wait_timeout_while_returns (suc c) dur guard w good s h =
        let (r, w', e, l) =
          loop-Returns c (now w) dur guard w good (omega arith) (omega arith)
            (first_left most (now w) dur (still w) c s h) in
        (r, w', e, l, timed_loop_ends cv th (now w) dur condition (suc c) guard r w w' e)
