-- ===== src/Sys/Unix/RwLock/Going.antt =====
-- Which calls of src/sys/unix/rwlock.rs can go on when no thread has a guard.
use pinned_sync.Base.{
  ℕ, ◌≤◌, ◌<◌, ◌≡◌, refl, subst, sym, ◌≢◌, inl, inr, Bool, true, false, none, arith, total-eq-zero,
  update, usize_mod, Option-cases, some_passes, ap,
}
use pinned_sync.Sys.Unix.Libc.{PthreadRwLock, PosixRwLock, GrantsRightly}
use pinned_sync.Sys.Unix.RwLock.{RwLock}
use pinned_sync.Sys.Unix.RwLock.Threads.{
  Pc, outside, reading, read_granted, counting, read_held, read_dropping, uncounting,
  read_unlocking, writing, write_granted, readers_unknown, code_unknown, marking, write_held,
  write_dropping, flag_unknown, clearing, write_unlocking, refusing, failed, Move, rdlock_answers,
  tryrdlock_answers, test_read, count, assert_unlocked, uncount, unlock_read, wrlock_answers,
  trywrlock_answers, test_write, test_readers, mark, assert_no_readers, assert_locked, clear,
  unlock_write, System, Step, pick, Reach, made, later,
}
use pinned_sync.Sys.Unix.RwLock.Standing.{Standing, absent, astray, standing, shares, owns, Inv}
use pinned_sync.Sys.Unix.RwLock.Races.{Reach-Inv}

-- The place is in a call, and not between calls.
abbrev pub in_call : Pc → Bool
in_call outside = false
in_call read_held = false
in_call write_held = false
in_call _ = true

-- The place has, or is about to give back, a part of the pthread lock.
abbrev has_part : Pc → Bool
has_part p = elim (standing p) [ absent ↦ false | _ ↦ true ]

module _ (api : PthreadRwLock) (debug : Bool) (who : ℕ → ℕ) (k : ℕ) where
  -- Some place in a call has a step, which takes it to another place.
  abbrev pub CanStep : System api debug → Type 0
  CanStep s =
      (i : ℕ) × (t : System api debug) × (in_call (s.pc i) ≡ true)
      × Step api debug who k s t
      × (t.pc i ≢ s.pc i)

  module _ (s : System api debug) (i : ℕ) (lt : i < k) where
    step_of :
        {p : Pc} {m : RwLock api debug} (q : Pc)
        → s.pc i ≡ p
        → in_call p ≡ true
        → q ≢ p
        → Move api debug (who i) s.mem p m q
        → CanStep s
    step_of {p} {m} q e called moved mv = (
      i,
      record { mem = m; pc = update s.pc i q },
      ground arith,
      pick i lt (subst (λ x. Move api debug (who i) s.mem x m q) (sym e) mv),
      ground arith,
    )

    -- A place with a part in the lock needs nobody else.
    part_steps :
        (p : Pc)
        → s.pc i ≡ p
        → in_call p ≡ true
        → has_part p ≡ true
        → standing p ≢ astray
        → CanStep s
    part_steps (read_granted tries) e h o ne = step_of _ e refl (λ q. ground arith) test_read
    part_steps counting e h o ne = step_of _ e refl (λ q. cc) count
    part_steps read_dropping e h o ne = step_of _ e refl (λ q. ground arith) assert_unlocked
    part_steps uncounting e h o ne = step_of _ e refl (λ q. cc) uncount
    part_steps read_unlocking e h o ne = step_of _ e refl (λ q. ground arith) (unlock_read refl)
    part_steps (write_granted tries) e h o ne = step_of _ e refl (λ q. ground arith) test_write
    part_steps (readers_unknown tries) e h o ne = step_of _ e refl (λ q. ground arith) test_readers
    part_steps marking e h o ne = step_of _ e refl (λ q. cc) mark
    part_steps write_dropping e h o ne = step_of _ e refl (λ q. ground arith) assert_no_readers
    part_steps flag_unknown e h o ne = step_of _ e refl (λ q. ground arith) assert_locked
    part_steps clearing e h o ne = step_of _ e refl (λ q. cc) clear
    part_steps write_unlocking e h o ne = step_of _ e refl (λ q. ground arith) (unlock_write refl)
    part_steps code_unknown e h o ne = absurd (ne refl)
    part_steps (refusing tries) e h o ne = absurd (ne refl)
    part_steps failed e h o ne = absurd (ne refl)
    part_steps p e h o ne = absurd cc

    -- While the lock is free a place that asks for it is answered.
    asker_steps :
        (posix : PosixRwLock api) (p : Pc)
        → s.pc i ≡ p
        → in_call p ≡ true
        → has_part p ≡ false
        → posix.writer s.mem.lock ≡ none
        → posix.readers s.mem.lock ≡ 0
        → CanStep s
    asker_steps posix (reading false) e h o free alone =
        elim (posix.rdlock_shared (who i) s.mem.lock free) [
          | inl (l, granted, _, _) ↦ step_of _ e refl (λ q. ground arith) (rdlock_answers granted)
          | inr full ↦ step_of _ e refl (λ q. ground arith) (rdlock_answers full)
        ]
    asker_steps posix (reading true) e h o free alone =
        step_of _ e refl (λ q. ground arith) (tryrdlock_answers refl)
    asker_steps posix (writing false) e h o free alone =
        let (l, granted, _, _) = posix.wrlock_free (who i) s.mem.lock alone free in
        step_of _ e refl (λ q. ground arith) (wrlock_answers granted)
    asker_steps posix (writing true) e h o free alone =
        step_of _ e refl (λ q. ground arith) (trywrlock_answers refl)
    asker_steps posix p e h o free alone = absurd cc

absent_not : (x : Standing) → owns x ≡ true → x ≢ absent
absent_not x h e = ground arith

beyond_outside :
    {api : PthreadRwLock} {debug : Bool} {who : ℕ → ℕ} {k : ℕ} {s : System api debug}
    → Reach api debug who k s
    → (j : ℕ) → k ≤ j
    → s.pc j ≡ outside
beyond_outside (made e) j le = refl
beyond_outside (later r (pick i lt mv)) j le = ground (arith, beyond_outside r j le)

part_in_call : (p : Pc) → has_part p ≡ true → p ≢ read_held → p ≢ write_held → in_call p ≡ true
part_in_call p o r w = ground arith

no_part : (p : Pc) → has_part p ≡ false → standing p ≡ absent
no_part p o = ground arith

part_of : (p : Pc) → has_part p ≡ true → standing p ≢ absent
part_of p o e = ground arith

called : (p : Pc) → in_call p ≡ true → p ≢ outside
called p h e = ground arith

module _ (api : PthreadRwLock) (debug : Bool) (posix : PosixRwLock api)
    (right : GrantsRightly api posix) {who : ℕ → ℕ} {k : ℕ} (few : k < usize_mod)
    {s : System api debug} (r : Reach api debug who k s)
    (no_guard : (i : ℕ) → (s.pc i ≢ read_held) × (s.pc i ≢ write_held)) where
  inv : Inv api debug posix who k s.mem (λ j. standing (s.pc j))
  inv = Reach-Inv api debug posix right few r

  within : (j : ℕ) → s.pc j ≢ outside → j < k
  within j ne = ground (arith, beyond_outside r j)

  free_of_absent :
      ((j : ℕ) → standing (s.pc j) ≡ absent)
      → (posix.writer s.mem.lock ≡ none) × (posix.readers s.mem.lock ≡ 0)
  free_of_absent h = (
    elim (Option-cases (posix.writer s.mem.lock)) [
      | inl free ↦ free
      | inr (u, taken) ↦
          let (j, own) = inv.held_by u taken in absurd (absent_not (standing (s.pc j)) own (h j))
    ],
    omega
        (arith, inv.number, total-eq-zero shares k (λ j. standing (s.pc j)) (λ j. ap shares (h j))),
  )

  -- In an interleaving of calls of the pthread RwLock, fewer than 2 ^ 64 at a time, over a C library
  -- that grants no lock wrongly, in which no thread has a guard and some thread is in a call, some
  -- thread that is in a call has a step, which takes it to another place.
  pub calls_go_on : (i : ℕ) → in_call (s.pc i) ≡ true → CanStep api debug who k s
  calls_go_on i h = elim (some_passes (λ p. has_part p) k s.pc) [
    | inl (j, o) ↦
        part_steps api debug who k s j (within j (λ e. part_of (s.pc j) o (ap standing e))) (s.pc j)
          refl (part_in_call (s.pc j) o (no_guard j).0 (no_guard j).1) o (inv.placed j)
    | inr none_has ↦
        let none_at : (j : ℕ) → has_part (s.pc j) ≡ false =
          λ j. ground (arith, none_has j, beyond_outside r j) in
        let (free, alone) = free_of_absent (λ j. no_part (s.pc j) (none_at j)) in
        asker_steps api debug who k s i (within i (called (s.pc i) h)) posix (s.pc i) refl h
          (none_at i) free alone
  ]
