-- ===== src/Sys/Unix/RwLock/Races.antt =====
-- Who uses the record of src/sys/unix/rwlock.rs at the same time, over a C library that grants no
-- lock when it should not.
use pinned_sync.Base.{
  ℕ, ◌<◌, ◌≡◌, refl, subst, ap, ◌∙◌, ◌≢◌, Bool, true, false, arith, update, usize_mod, le-total,
  total-eq-zero,
}
use mathlib.Core.Path.{fun_ext}
use pinned_sync.SysCommon.InitAssert
use pinned_sync.Effect.{returned}
use pinned_sync.Sys.Unix.Libc.{PthreadRwLock, PosixRwLock, GrantsRightly}
use pinned_sync.Sys.Unix.RwLock.{RwLock, uninit, init}
use pinned_sync.Sys.Unix.RwLock.Threads.{
  Pc, read_granted, read_held, read_dropping, write_granted, marking, write_held, flag_unknown,
  clearing, refusing, failed, System, pick, Reach, made, later,
}
use pinned_sync.Sys.Unix.RwLock.Standing.{
  Standing, absent, astray, standing, shares, counts, owns, marks, Inv,
}
use pinned_sync.Sys.Unix.RwLock.Kept.{Change-Inv}
use pinned_sync.Sys.Unix.RwLock.Changes.{Move-Change}

-- The next step writes `write_locked`, or reads or writes it.
abbrev pub writes_flag : Pc → Bool
writes_flag marking = true
writes_flag clearing = true
writes_flag _ = false

abbrev pub uses_flag : Pc → Bool
uses_flag (read_granted _) = true
uses_flag read_dropping = true
uses_flag (write_granted _) = true
uses_flag flag_unknown = true
uses_flag marking = true
uses_flag clearing = true
uses_flag _ = false

-- How the standings compare.
absent_of : (s : Standing) → shares s ≡ 0 → owns s ≡ false → s ≢ astray → s ≡ absent
absent_of s h h' ne = ground arith

owns_not : (s : Standing) → owns s ≢ true → owns s ≡ false
owns_not s h = ground arith

no_count : (s : Standing) → shares s ≡ 0 → counts s ≡ 0
no_count s h = ground arith

unused : (p : Pc) → standing p ≡ absent → uses_flag p ≡ false
unused p h = ground arith

writer_owns : (p : Pc) → writes_flag p ≡ true → owns (standing p) ≡ true
writer_owns p h = ground arith

standing-update :
    (pc : ℕ → Pc) (i : ℕ) (p : Pc)
    → update (λ j. standing (pc j)) i (standing p) ≡ (λ j. standing (update pc i p j))
standing-update pc i p = fun_ext (λ j. ground arith)

module _ (api : PthreadRwLock) (debug : Bool) (posix : PosixRwLock api)
    (right : GrantsRightly api posix) {who : ℕ → ℕ} {k : ℕ} (few : k < usize_mod) where
  made-Inv :
      (m : RwLock api debug)
      → init api debug (uninit api debug) ≡ (returned tt, m)
      → Inv api debug posix who k m (λ _. absent)
  unfolding uninit init InitAssert.new InitAssert.init
  made-Inv m e = record {
    ready = ground arith;
    number = ground (arith, total-eq-zero shares k (λ _. absent) (λ _. refl), posix.fresh);
    number_counted = ground (arith, total-eq-zero counts k (λ _. absent) (λ _. refl));
    apart = ground (arith, posix.fresh);
    owner = λ i h. cc;
    held_by = λ u h. absurd (ground (arith, posix.fresh));
    single = λ i j h. cc;
    flag = λ i h. cc;
    unflagged = λ h. ground arith;
    placed = λ i. λ h. cc;
    beyond = λ i h. refl;
  }

  pub Reach-Inv :
      {s : System api debug}
      → Reach api debug who k s
      → Inv api debug posix who k s.mem (λ i. standing (s.pc i))
  Reach-Inv (made {m} e) = made-Inv m e
  Reach-Inv (later {s} r (pick i {m} {p} lt mv)) =
      let inv = Reach-Inv r in
      let (ne, d) = Move-Change api debug posix right inv i lt refl mv in
      subst (Inv api debug posix who k m) (standing-update s.pc i p)
        (Change-Inv api debug posix inv i lt refl ne few d)

  module _ {s : System api debug} (r : Reach api debug who k s) (i : ℕ) where
    inv : Inv api debug posix who k s.mem (λ j. standing (s.pc j))
    inv = Reach-Inv r

    -- While a place is the writer of the pthread lock no other has a part in it.
    no_share : owns (standing (s.pc i)) ≡ true → (j : ℕ) → shares (standing (s.pc j)) ≡ 0
    no_share h j = ground (
      arith,
      inv.number,
      inv.apart,
      inv.owner i,
      inv.beyond j,
      le-total shares k (λ l. standing (s.pc l)) j,
    )

    alone : owns (standing (s.pc i)) ≡ true → (j : ℕ) → i ≢ j → standing (s.pc j) ≡ absent
    alone h j ne =
        absent_of (standing (s.pc j)) (no_share h j)
          (owns_not (standing (s.pc j)) (λ q. ne (inv.single i j h q))) (inv.placed j)

    none_counted : owns (standing (s.pc i)) ≡ true → s.mem.num_readers ≡ 0
    none_counted h = omega (
      arith,
      inv.number_counted,
      total-eq-zero counts k (λ l. standing (s.pc l))
          (λ j. no_count (standing (s.pc j)) (no_share h j)),
    )

    reader : s.pc i ≡ read_held → (s.mem.write_locked ≡ false) × (s.mem.num_readers ≢ 0)
    reader e = (
      ground (
        arith,
        inv.beyond i,
        inv.number,
        inv.apart,
        inv.unflagged,
        le-total shares k (λ l. standing (s.pc l)) i,
      ),
      ground
          (arith, inv.beyond i, inv.number_counted, le-total counts k (λ l. standing (s.pc l)) i),
    )

    -- In every interleaving of calls of the pthread RwLock, fewer than 2 ^ 64 at a time, over a C
    -- library that grants no lock wrongly, no place is about to write `write_locked` while another
    -- is about to read or write it.
    pub no_flag_race : (j : ℕ) → i ≢ j → writes_flag (s.pc i) ≡ true → uses_flag (s.pc j) ≡ false
    no_flag_race j ne h = unused (s.pc j) (alone (writer_owns (s.pc i) h) j ne)

    -- In every interleaving of calls of the pthread RwLock, fewer than 2 ^ 64 at a time, over a C
    -- library that grants no lock wrongly, no assertion fails and no granted lock is refused. While
    -- there is a write guard, `write_locked` is set, `num_readers` is 0, and there is no other
    -- guard; while there is a read guard, `write_locked` is not set and `num_readers` is not 0.
    pub record_is_right :
        (s.pc i ≢ failed)
        × ((tries : Bool) → s.pc i ≢ refusing tries)
        × (s.pc i ≡ write_held
            → (s.mem.write_locked ≡ true)
              × (s.mem.num_readers ≡ 0)
              × ((j : ℕ) → i ≢ j → (s.pc j ≢ write_held) × (s.pc j ≢ read_held)))
        × (s.pc i ≡ read_held → (s.mem.write_locked ≡ false) × (s.mem.num_readers ≢ 0))
    record_is_right = (
      λ e. inv.placed i (ap standing e),
      λ tries e. inv.placed i (ap standing e),
      λ e. (
        inv.flag i (ap (λ p. owns (standing p)) e) ∙ ap (λ p. marks (standing p)) e,
        none_counted (ap (λ p. owns (standing p)) e),
        λ j ne. let a = alone (ap (λ p. owns (standing p)) e) j ne in (ground arith, ground arith),
      ),
      reader,
    )
