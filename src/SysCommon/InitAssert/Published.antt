-- ===== src/SysCommon/InitAssert/Published.antt =====
-- The cell under acquire and release (src/sys_common/init_assert.rs).
use pinned_sync.Base.{ℕ, ◌≤◌, ◌≡◌, refl, ◌≢◌, arith, ◌==ℤ◌, true, false, update}
use pinned_sync.SysCommon.InitAssert.{uninit_state, init_state}
use pinned_sync.SysCommon.InitAssert.Threads.{Pc, writing, storing, reading}
use pinned_sync.SysCommon.InitAssert.Safety.{claims, unwritten, reads, is_written}
use pinned_sync.SysCommon.InitAssert.Views.{
  View, Memory, Move, swap, assert_pass, assert_fail, load, load_fails, load_again,
  load_again_fails, System, pick, Reach, here, later,
}

record Inv {T : Type 0} (m : Memory T) (view : ℕ → View) (pc : ℕ → Pc) : Type 0 where
  first : (at : ℕ) → at ≤ m.last → ((m.writes at).value ==ℤ uninit_state) ≡ true → at ≡ 0
  released :
      (at : ℕ)
      → at ≤ m.last
      → ((m.writes at).value ==ℤ init_state) ≡ true
      → (m.writes at).releases ≡ true
  written : (at : ℕ) → at ≤ m.last → (m.writes at).releases ≡ true → is_written m.cell ≡ true
  virgin : m.last ≡ 0 → is_written m.cell ≡ false
  unclaimed : (i : ℕ) → m.last ≡ 0 → claims (pc i) ≡ false
  single : (i j : ℕ) → claims (pc i) ≡ true → claims (pc j) ≡ true → i ≡ j
  blank : (i : ℕ) → unwritten (pc i) ≡ true → is_written m.cell ≡ false
  known : (i : ℕ) → (view i).knows ≡ true → is_written m.cell ≡ true
  stored : (i : ℕ) → pc i ≡ storing → (view i).knows ≡ true
  readers : (i : ℕ) → reads (pc i) ≡ true → (view i).knows ≡ true

-- The premise of a move, for the clauses that do not name it.
abbrev Premise :
    {T : Type 0} {m : Memory T} {v : View} {m' : Memory T} {v' : View} {p p' : Pc}
    → Move m v p m' v' p'
    → Type 0
Premise (assert_pass {old} _) = (old ==ℤ uninit_state) ≡ true
Premise (assert_fail {old} _) = (old ==ℤ uninit_state) ≡ false
Premise {m} (load at _ _ _) = (at ≤ m.last) × (((m.writes at).value ==ℤ init_state) ≡ true)
Premise {m} (load_again at _ _ _) = (at ≤ m.last) × (((m.writes at).value ==ℤ init_state) ≡ true)
Premise {m} (load_fails at _ _ _) = at ≤ m.last
Premise {m} (load_again_fails at _ _ _) = at ≤ m.last
Premise _ = Unit

premise :
    {T : Type 0} {m : Memory T} {v : View} {m' : Memory T} {v' : View} {p p' : Pc}
    (mv : Move m v p m' v' p')
    → Premise mv
premise (assert_pass h) = h
premise (assert_fail h) = h
premise (load at _ le h) = (le, h)
premise (load_again at _ le h) = (le, h)
premise (load_fails at _ le _) = le
premise (load_again_fails at _ le _) = le
premise _ = tt

-- The write of `state` that a load finds.
abbrev number :
    {T : Type 0} {m : Memory T} {v : View} {m' : Memory T} {v' : View} {p p' : Pc}
    → Move m v p m' v' p'
    → ℕ
number (load at _ _ _) = at
number (load_fails at _ _ _) = at
number (load_again at _ _ _) = at
number (load_again_fails at _ _ _) = at
number _ = 0

module _ {T : Type 0} {m : Memory T} {view : ℕ → View} {pc : ℕ → Pc} (inv : Inv m view pc)
    (i : ℕ) where
  open inv use {first, released, written, virgin, unclaimed, single, blank, known, stored, readers}

  first_after :
      {v : View} {m' : Memory T} {v' : View} {p p' : Pc}
      → view i ≡ v
      → pc i ≡ p
      → Move m v p m' v' p'
      → (at : ℕ) → at ≤ m'.last
      → ((m'.writes at).value ==ℤ uninit_state) ≡ true
      → at ≡ 0
  first_after ev e swap at le h = ground (arith, first at)
  first_after ev e mv at le h = ground (arith, premise mv, first at)

  released_after :
      {v : View} {m' : Memory T} {v' : View} {p p' : Pc}
      → view i ≡ v
      → pc i ≡ p
      → Move m v p m' v' p'
      → (at : ℕ) → at ≤ m'.last
      → ((m'.writes at).value ==ℤ init_state) ≡ true
      → (m'.writes at).releases ≡ true
  released_after ev e swap at le h = ground (arith, released at)
  released_after ev e mv at le h = ground (arith, premise mv, released at, stored i)

  written_after :
      {v : View} {m' : Memory T} {v' : View} {p p' : Pc}
      → view i ≡ v
      → pc i ≡ p
      → Move m v p m' v' p'
      → (at : ℕ) → at ≤ m'.last
      → (m'.writes at).releases ≡ true
      → is_written m'.cell ≡ true
  written_after ev e swap at le h = ground (arith, written at, written m.last)
  written_after ev e mv at le h = ground (arith, premise mv, written at, known i)

  virgin_after :
      {v : View} {m' : Memory T} {v' : View} {p p' : Pc}
      → view i ≡ v
      → pc i ≡ p
      → Move m v p m' v' p'
      → m'.last ≡ 0
      → is_written m'.cell ≡ false
  virgin_after ev e swap h = ground (arith, virgin)
  virgin_after ev e mv h = ground (arith, premise mv, virgin, unclaimed i)

  unclaimed_after :
      {v : View} {m' : Memory T} {v' : View} {p p' : Pc}
      → view i ≡ v
      → pc i ≡ p
      → Move m v p m' v' p'
      → (j : ℕ) → m'.last ≡ 0
      → claims (update pc i p' j) ≡ false
  unclaimed_after ev e swap j h = ground (arith, unclaimed j)
  unclaimed_after ev e mv j h = ground (arith, premise mv, unclaimed j, unclaimed i)

  single_after :
      {v : View} {m' : Memory T} {v' : View} {p p' : Pc}
      → view i ≡ v
      → pc i ≡ p
      → Move m v p m' v' p'
      → (j k : ℕ) → claims (update pc i p' j) ≡ true
      → claims (update pc i p' k) ≡ true
      → j ≡ k
  single_after ev e swap j k hj hk =
      ground (arith, single j k, unclaimed j, unclaimed k, first m.last)
  single_after ev e mv j k hj hk = ground (arith, premise mv, single j k, single i k, single j i)

  blank_after :
      {v : View} {m' : Memory T} {v' : View} {p p' : Pc}
      → view i ≡ v
      → pc i ≡ p
      → Move m v p m' v' p'
      → (j : ℕ) → unwritten (update pc i p' j) ≡ true
      → is_written m'.cell ≡ false
  blank_after ev e swap j h = ground (arith, blank j, virgin, first m.last)
  blank_after ev e mv j h = ground (arith, premise mv, blank j, blank i, single i j)

  known_after :
      {v : View} {m' : Memory T} {v' : View} {p p' : Pc}
      → view i ≡ v
      → pc i ≡ p
      → Move m v p m' v' p'
      → (j : ℕ) → (update view i v' j).knows ≡ true
      → is_written m'.cell ≡ true
  known_after ev e swap j h = ground (arith, known j, known i, written m.last)
  known_after ev e mv j h = ground (arith, premise mv, known j, known i, written (number mv))

  stored_after :
      {v : View} {m' : Memory T} {v' : View} {p p' : Pc}
      → view i ≡ v
      → pc i ≡ p
      → Move m v p m' v' p'
      → (j : ℕ) → update pc i p' j ≡ storing
      → (update view i v' j).knows ≡ true
  stored_after ev e swap j h = ground (arith, stored j)
  stored_after ev e mv j h = ground (arith, premise mv, stored j)

  readers_after :
      {v : View} {m' : Memory T} {v' : View} {p p' : Pc}
      → view i ≡ v
      → pc i ≡ p
      → Move m v p m' v' p'
      → (j : ℕ) → reads (update pc i p' j) ≡ true
      → (update view i v' j).knows ≡ true
  readers_after ev e swap j h = ground (arith, readers j)
  readers_after ev e mv j h = ground (arith, premise mv, readers j, readers i, released (number mv))

  Move-Inv :
      {m' : Memory T} {v' : View} {p' : Pc}
      → Move m (view i) (pc i) m' v' p'
      → Inv m' (update view i v') (update pc i p')
  Move-Inv mv = record {
    first = first_after refl refl mv;
    released = released_after refl refl mv;
    written = written_after refl refl mv;
    virgin = virgin_after refl refl mv;
    unclaimed = unclaimed_after refl refl mv;
    single = single_after refl refl mv;
    blank = blank_after refl refl mv;
    known = known_after refl refl mv;
    stored = stored_after refl refl mv;
    readers = readers_after refl refl mv;
  }

Reach-Inv : {T : Type 0} {s : System T} → Reach s → Inv s.mem s.view s.pc
Reach-Inv here = ground arith
Reach-Inv (later r (pick i mv)) = Move-Inv (Reach-Inv r) i mv

-- Under acquire and release, however `init` and `get_ref` calls of any number of threads interleave
-- and whichever writes their loads find, a thread that is about to use the reference finds the cell
-- written, the write of the cell happens before that use, and no thread is about to write it.
pub written_before_read :
    {T : Type 0} {s : System T}
    → Reach s
    → (i j : ℕ) → s.pc i ≡ reading
    → ((s.view i).knows ≡ true) × (is_written s.mem.cell ≡ true) × (s.pc j ≢ writing)
written_before_read {s} r i j e = (
  ground (arith, readers i),
  ground (arith, known i, readers i),
  λ f. ground (arith, readers i, known i, blank j),
)
  where
    open (Reach-Inv r) use {readers, known, blank}
