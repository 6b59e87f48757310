-- ===== src/SysCommon/InitAssert/Safety.antt =====
-- The cell in every interleaving of `init` and `get_ref`.
use pinned_sync.Base.{
  ℕ, ◌≡◌, refl, ◌≢◌, ◌⊎◌, Option, none, some, arith, Bool, ◌==ℤ◌, true, false, update,
}
use pinned_sync.SysCommon.InitAssert.{uninit_state, init_state, InitAssert}
use pinned_sync.SysCommon.InitAssert.Threads.{
  Pc, swapped, writing, storing, checked, reading, Move, swap, assert_pass, assert_fail, load,
  load_again, System, pick, Reach, here, later,
}

-- The thread has won the exchange and has not yet published the cell.
abbrev pub claims : Pc → Bool
claims (swapped old) = old ==ℤ uninit_state
claims writing = true
claims storing = true
claims _ = false

-- It has won and has not yet written the cell.
abbrev pub unwritten : Pc → Bool
unwritten (swapped old) = old ==ℤ uninit_state
unwritten writing = true
unwritten _ = false

abbrev pub reads : Pc → Bool
reads checked = true
reads reading = true
reads _ = false

abbrev pub is_written {ℓ} : {T : Type ℓ} → Option T → Bool
is_written none = false
is_written (some _) = true

record Inv {T : Type 0} (m : InitAssert T) (pc : ℕ → Pc) : Type 0 where
  virgin : (i : ℕ) → (m.state ==ℤ uninit_state) ≡ true → claims (pc i) ≡ false
  single : (i j : ℕ) → claims (pc i) ≡ true → claims (pc j) ≡ true → i ≡ j
  public : (m.state ==ℤ init_state) ≡ true → is_written m.cell ≡ true
  quiet : (i : ℕ) → (m.state ==ℤ init_state) ≡ true → unwritten (pc i) ≡ false
  stored : (i : ℕ) → pc i ≡ storing → is_written m.cell ≡ true
  readers : (i : ℕ) → reads (pc i) ≡ true → is_written m.cell ≡ true
  racefree : (i j : ℕ) → reads (pc i) ≡ true → unwritten (pc j) ≡ false
  once : (i : ℕ) → reads (pc i) ≡ true → (m.state ==ℤ uninit_state) ≡ false

-- The premise of a move, for the clauses that do not name it.
abbrev Guard : {T : Type 0} {m m' : InitAssert T} {p p' : Pc} → Move m p m' p' → Type 0
Guard (assert_pass {old} _) = (old ==ℤ uninit_state) ≡ true
Guard (assert_fail {old} _) = (old ==ℤ uninit_state) ≡ false
Guard {m} (load _) = (m.state ==ℤ init_state) ≡ true
Guard {m} (load_again _) = (m.state ==ℤ init_state) ≡ true
Guard _ = Unit

guard : {T : Type 0} {m m' : InitAssert T} {p p' : Pc} (mv : Move m p m' p') → Guard mv
guard (assert_pass g) = g
guard (assert_fail g) = g
guard (load g) = g
guard (load_again g) = g
guard _ = tt

module _ {T : Type 0} {m : InitAssert T} {pc : ℕ → Pc} (inv : Inv m pc) (i : ℕ) where
  open inv use {virgin, single, public, quiet, stored, readers, racefree, once}

  Move-virgin :
      {p p' : Pc} {m' : InitAssert T}
      → Move m p m' p'
      → pc i ≡ p
      → (j : ℕ) → (m'.state ==ℤ uninit_state) ≡ true
      → claims (update pc i p' j) ≡ false
  Move-virgin swap e j h = ground arith
  Move-virgin mv e j h = ground (arith, guard mv, virgin j, virgin i)

  Move-single :
      {p p' : Pc} {m' : InitAssert T}
      → Move m p m' p'
      → pc i ≡ p
      → (j k : ℕ) → claims (update pc i p' j) ≡ true
      → claims (update pc i p' k) ≡ true
      → j ≡ k
  Move-single swap e j k hj hk = ground (arith, single j k, virgin j, virgin k)
  Move-single mv e j k hj hk = ground (arith, guard mv, single j k, single i k, single j i)

  Move-public :
      {p p' : Pc} {m' : InitAssert T}
      → Move m p m' p'
      → pc i ≡ p
      → (m'.state ==ℤ init_state) ≡ true
      → is_written m'.cell ≡ true
  Move-public swap e h = ground arith
  Move-public mv e h = ground (arith, public, stored i)

  Move-quiet :
      {p p' : Pc} {m' : InitAssert T}
      → Move m p m' p'
      → pc i ≡ p
      → (j : ℕ) → (m'.state ==ℤ init_state) ≡ true
      → unwritten (update pc i p' j) ≡ false
  Move-quiet swap e j h = ground arith
  Move-quiet mv e j h = ground (arith, guard mv, quiet j, quiet i, single i j)

  Move-stored :
      {p p' : Pc} {m' : InitAssert T}
      → Move m p m' p'
      → pc i ≡ p
      → (j : ℕ) → update pc i p' j ≡ storing
      → is_written m'.cell ≡ true
  Move-stored swap e j h = ground (arith, stored j)
  Move-stored mv e j h = ground (arith, stored j)

  Move-readers :
      {p p' : Pc} {m' : InitAssert T}
      → Move m p m' p'
      → pc i ≡ p
      → (j : ℕ) → reads (update pc i p' j) ≡ true
      → is_written m'.cell ≡ true
  Move-readers swap e j h = ground (arith, readers j)
  Move-readers mv e j h = ground (arith, guard mv, readers j, public)

  Move-racefree :
      {p p' : Pc} {m' : InitAssert T}
      → Move m p m' p'
      → pc i ≡ p
      → (j k : ℕ) → reads (update pc i p' j) ≡ true
      → unwritten (update pc i p' k) ≡ false
  Move-racefree swap e j k h = ground (arith, racefree j k, once j)
  Move-racefree mv e j k h = ground (arith, guard mv, racefree j k, racefree j i, quiet k)

  Move-once :
      {p p' : Pc} {m' : InitAssert T}
      → Move m p m' p'
      → pc i ≡ p
      → (j : ℕ) → reads (update pc i p' j) ≡ true
      → (m'.state ==ℤ uninit_state) ≡ false
  Move-once swap e j h = ground arith
  Move-once mv e j h = ground (arith, guard mv, once j)

  Move-Inv : {p' : Pc} {m' : InitAssert T} → Move m (pc i) m' p' → Inv m' (update pc i p')
  Move-Inv mv = record {
    virgin = Move-virgin mv refl;
    single = Move-single mv refl;
    public = Move-public mv refl;
    quiet = Move-quiet mv refl;
    stored = Move-stored mv refl;
    readers = Move-readers mv refl;
    racefree = Move-racefree mv refl;
    once = Move-once mv refl;
  }

Reach-Inv : {T : Type 0} {s : System T} → Reach s → Inv s.mem s.pc
Reach-Inv here = ground arith
Reach-Inv (later r (pick i mv)) = Move-Inv (Reach-Inv r) i mv

-- However `init` and `get_ref` calls of any number of threads interleave, a thread that is about to
-- use the reference finds the cell written, and no thread is about to write it.
no_torn_read :
    {T : Type 0} {s : System T}
    → Reach s
    → (i j : ℕ) → s.pc i ≡ reading
    → (is_written s.mem.cell ≡ true) × (s.pc j ≢ writing)
no_torn_read {s} r i j e = (ground (arith, readers i), λ f. ground (arith, racefree i j))
  where
    open (Reach-Inv r) use {readers, racefree}

-- However the calls interleave, at most one thread runs the closure of `init`: two threads that are
-- both past the assertion and before the store of `INIT` are one.
single_initializer :
    {T : Type 0} {s : System T}
    → Reach s
    → (i j : ℕ) → s.pc i ≡ writing
    → (s.pc j ≡ writing) ⊎ (s.pc j ≡ storing)
    → i ≡ j
single_initializer r i j e f = ground (arith, (Reach-Inv r).single i j)
