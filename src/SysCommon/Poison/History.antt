-- ===== src/SysCommon/Poison/History.antt =====
-- The flag against the history of the sections that it guarded (src/sys_common/poison.rs).
use pinned_sync.Base.{◌≡◌, Bool, false, not, ◌&&◌, ◌||◌, List, [], ◌∷◌, arith}
use pinned_sync.Std.{Thread, inner_of, is_err}
use pinned_sync.SysCommon.Poison.{Flag, new, get, borrow, done}

-- A critical section: the thread as it borrows the flag, and as its guard is dropped.
pub record Section : Type 0 where
  pub begun : Thread
  pub ended : Thread

-- The panic began inside of the section.
abbrev pub panics : Section → Bool
panics s = not s.begun.panicking && s.ended.panicking

abbrev pub any_panics : List Section → Bool
any_panics [] = false
any_panics (s ∷ ss) = panics s || any_panics ss

-- The flag after one section, and after a list of sections one after the other.
pub after : Section → Flag → Flag
after s f = done s.ended (inner_of (borrow s.begun f)) f

pub after_all : List Section → Flag → Flag
after_all [] f = f
after_all (s ∷ ss) f = after_all ss (after s f)

get-after : (s : Section) (f : Flag) → get (after s f) ≡ (get f || panics s)
unfolding after get borrow done
get-after s f = ground arith

get-after_all : (ss : List Section) (f : Flag) → get (after_all ss f) ≡ (get f || any_panics ss)
unfolding after_all
get-after_all [] f = ground arith
get-after_all (s ∷ ss) f = ground (arith, get-after_all ss (after s f), get-after s f)

-- After any sequence of critical sections, a new borrow of the flag is an error exactly when one
-- of the sections was left by a panic that began inside of it; an error holds the same guard.
borrow-after_all :
    (ss : List Section) (th : Thread)
    → let r = borrow th (after_all ss new) in
      (is_err r ≡ any_panics ss) × ((inner_of r).panicking ≡ th.panicking)
unfolding new get borrow
borrow-after_all ss th = (ground (arith, get-after_all ss new), ground arith)
