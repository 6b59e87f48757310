-- ===== src/Sys/Unix/RwLock/Rest.antt =====
-- The pthread read-write lock of src/sys/unix/rwlock.rs when no call is under way.
use pinned_sync.Base.{
  ℕ, ◌<◌, ◌≡◌, ◌∙◌, ◌⊎◌, inl, inr, Bool, true, false, arith, total, total-congr, usize_mod,
  Option-cases,
}
use pinned_sync.Sys.Interface.{shared, exclusive}
use pinned_sync.Sys.Unix.Libc.{PthreadRwLock, PosixRwLock, GrantsRightly}
use pinned_sync.Sys.Unix.RwLock.Access.{InAccess}
use pinned_sync.Sys.Unix.RwLock.Threads.{Pc, outside, read_held, write_held, System, Reach}
use pinned_sync.Sys.Unix.RwLock.Standing.{standing, shares, counts, owns, Inv}
use pinned_sync.Sys.Unix.RwLock.Races.{Reach-Inv, record_is_right}

-- No call is under way: the place has a guard or nothing.
abbrev pub rests : Pc → Bool
rests outside = true
rests read_held = true
rests write_held = true
rests _ = false

abbrev pub is_read_guard : Pc → ℕ
is_read_guard read_held = 1
is_read_guard _ = 0

shares_rest : (p : Pc) → rests p ≡ true → shares (standing p) ≡ is_read_guard p
shares_rest p h = ground arith

counts_rest : (p : Pc) → rests p ≡ true → counts (standing p) ≡ is_read_guard p
counts_rest p h = ground arith

owns_rest : (p : Pc) → rests p ≡ true → owns (standing p) ≡ true → p ≡ write_held
owns_rest p h q = ground arith

module _ (api : PthreadRwLock) (debug : Bool) (posix : PosixRwLock api)
    (right : GrantsRightly api posix) {who : ℕ → ℕ} {k : ℕ} (few : k < usize_mod)
    {s : System api debug} (r : Reach api debug who k s)
    (quiet : (i : ℕ) → rests (s.pc i) ≡ true) where
  inv : Inv api debug posix who k s.mem (λ j. standing (s.pc j))
  inv = Reach-Inv api debug posix right few r

  sharing_at_rest : total shares k (λ j. standing (s.pc j)) ≡ total is_read_guard k s.pc
  sharing_at_rest =
      total-congr shares is_read_guard k (λ j. standing (s.pc j)) s.pc
        (λ j. shares_rest (s.pc j) (quiet j))

  counted_at_rest : total counts k (λ j. standing (s.pc j)) ≡ total is_read_guard k s.pc
  counted_at_rest =
      total-congr counts is_read_guard k (λ j. standing (s.pc j)) s.pc
        (λ j. counts_rest (s.pc j) (quiet j))

  -- Whenever, in an interleaving of calls of the pthread RwLock, fewer than 2 ^ 64 at a time, over
  -- a C library that grants no lock wrongly, no call is under way, the lock is as the contract of
  -- `sys::rwlock` has it: shared by as many readers as there are read guards, or had by the one
  -- thread that has the write guard.
  pub rests-InAccess :
      InAccess api debug posix s.mem (shared (total is_read_guard k s.pc))
      ⊎ ((i : ℕ) × (s.pc i ≡ write_held) × InAccess api debug posix s.mem (exclusive (who i)))
  rests-InAccess = elim (Option-cases (posix.writer s.mem.lock)) [
    | inl free ↦ inl (
      inv.ready,
      inv.number ∙ sharing_at_rest,
      free,
      inv.unflagged free,
      inv.number_counted ∙ counted_at_rest,
    )
    | inr (u, taken) ↦
        let (i, own) = inv.held_by u taken in
        let at : s.pc i ≡ write_held = owns_rest (s.pc i) (quiet i) own in
        let (marked, alone, _) = (record_is_right api debug posix right few r i).2 at in
        inr (i, at, (inv.ready, ground (arith, inv.apart), inv.owner i own, marked, alone))
  ]
