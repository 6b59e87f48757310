-- ===== src/Sys/Unix/RwLock/Kept.antt =====
-- The places in the calls of src/sys/unix/rwlock.rs agree with its record in every interleaving.
use pinned_sync.Base.{
  ℕ, suc, ◌≤◌, ◌<◌, ◌≡◌, ◌≢◌, ◌⊎◌, Bool, true, false, none, some, arith, total, update, usize_mod,
  total-update, le-total, total-le,
}
use pinned_sync.Sys.Unix.Libc.{PthreadRwLock, PosixRwLock}
use pinned_sync.Sys.Unix.RwLock.{RwLock}
use pinned_sync.Sys.Unix.RwLock.Access.{IsReady}
use pinned_sync.Sys.Unix.RwLock.Standing.{
  Standing, astray, shares, counts, owns, marks, Change, none_changed, share_granted, was_counted,
  share_returned, lock_granted, lock_returned, Inv, was_uncounted, was_cleared, was_marked,
}

counts-le_one : (s : Standing) → counts s ≤ 1
counts-le_one s = ground arith

module _ (api : PthreadRwLock) (debug : Bool) (posix : PosixRwLock api) where
  open posix use {readers, writer}

  -- The premises of a change.
  abbrev Premise :
      {t : ℕ} {m m' : RwLock api debug} {s s' : Standing}
      → Change api debug posix t m s m' s'
      → Type 0
  Premise {m} {m'} (none_changed _) = m' ≡ m
  Premise {m} (share_granted {l} _ _ _) =
      (writer m.lock ≡ none) × (readers l ≡ suc (readers m.lock)) × (writer l ≡ none)
  Premise {m} (share_returned {l} _ _) = (suc (readers l) ≡ readers m.lock) × (writer l ≡ none)
  Premise {t} {m} (lock_granted {l} _ _ _ _) =
      (readers m.lock ≡ 0) × (writer m.lock ≡ none) × (readers l ≡ 0) × (writer l ≡ some t)
  Premise (lock_returned {l} _ _) = (readers l ≡ 0) × (writer l ≡ none)
  Premise _ = Unit

  premise :
      {t : ℕ} {m m' : RwLock api debug} {s s' : Standing} (d : Change api debug posix t m s m' s')
      → Premise d
  premise (none_changed e) = e
  premise (share_granted e f g) = (e, f, g)
  premise (share_returned e f) = (e, f)
  premise (lock_granted e f g h) = (e, f, g, h)
  premise (lock_returned e f) = (e, f)
  premise _ = tt

  module _ {who : ℕ → ℕ} {k : ℕ} {m : RwLock api debug} {at : ℕ → Standing}
      (inv : Inv api debug posix who k m at) (i : ℕ) (lt : i < k) where
    open inv use {ready, number, number_counted, apart, owner, held_by, single, flag, unflagged}

    none_owns : shares (at i) ≡ 1 → writer m.lock ≡ none
    none_owns h = ground (arith, apart, number, le-total shares k at i lt)

    ready_after :
        {m' : RwLock api debug} {s s' : Standing}
        → at i ≡ s
        → Change api debug posix (who i) m s m' s'
        → IsReady api debug posix m'
    ready_after {s} {s'} e was_counted = ground (arith, ready)
    ready_after {s} {s'} e d = ground (arith, premise d, ready)

    number_after :
        {m' : RwLock api debug} {s s' : Standing}
        → at i ≡ s
        → Change api debug posix (who i) m s m' s'
        → readers m'.lock ≡ total shares k (update at i s')
    number_after {s} {s'} e was_counted =
        ground (arith, number, apart, owner i, total-update shares k at i s' lt)
    number_after {s} {s'} e d =
        ground (arith, premise d, number, apart, owner i, total-update shares k at i s' lt)

    counted_after :
        {m' : RwLock api debug} {s s' : Standing}
        → at i ≡ s
        → Change api debug posix (who i) m s m' s'
        → k < usize_mod
        → m'.num_readers ≡ total counts k (update at i s')
    counted_after {s} {s'} e was_counted few = ground (
      arith,
      number_counted,
      total-update counts k at i s' lt,
      total-le counts counts-le_one k (update at i s'),
    )
    counted_after {s} {s'} e d few = ground (
      arith,
      premise d,
      number_counted,
      total-update counts k at i s' lt,
      total-le counts counts-le_one k (update at i s'),
    )

    apart_after :
        {m' : RwLock api debug} {s s' : Standing}
        → at i ≡ s
        → Change api debug posix (who i) m s m' s'
        → (readers m'.lock ≡ 0) ⊎ (writer m'.lock ≡ none)
    apart_after {s} {s'} e was_counted = ground (arith, apart, none_owns)
    apart_after {s} {s'} e d = ground (arith, premise d, apart, none_owns)

    owner_after :
        {m' : RwLock api debug} {s s' : Standing}
        → at i ≡ s
        → Change api debug posix (who i) m s m' s'
        → (j : ℕ) → owns (update at i s' j) ≡ true
        → writer m'.lock ≡ some (who j)
    owner_after {s} {s'} e was_counted j h = ground (arith, owner j, owner i, single i j, none_owns)
    owner_after {s} {s'} e d j h =
        ground (arith, premise d, owner j, owner i, single i j, none_owns)

    held_after :
        {m' : RwLock api debug} {s s' : Standing}
        → at i ≡ s
        → Change api debug posix (who i) m s m' s'
        → (u : ℕ) → writer m'.lock ≡ some u
        → (j : ℕ) × (owns (update at i s' j) ≡ true)
    held_after e (none_changed same) u h =
        let (j, o) = held_by u (ground arith) in (j, ground arith)
    held_after e was_counted u h = let (j, o) = held_by u h in (j, ground arith)
    held_after e was_uncounted u h = let (j, o) = held_by u h in (j, ground arith)
    held_after e (lock_granted x y z w) u h = (i, ground arith)
    held_after e was_marked u h = (i, ground arith)
    held_after e was_cleared u h = (i, ground arith)
    held_after e d u h = absurd (ground (arith, premise d))

    single_after :
        {m' : RwLock api debug} {s s' : Standing}
        → at i ≡ s
        → Change api debug posix (who i) m s m' s'
        → (j l : ℕ) → owns (update at i s' j) ≡ true
        → owns (update at i s' l) ≡ true
        → j ≡ l
    single_after {s} {s'} e was_counted j l h h' =
        ground (arith, single j l, single i l, single j i, owner j, owner l)
    single_after {s} {s'} e d j l h h' =
        ground (arith, premise d, single j l, single i l, single j i, owner j, owner l)

    flag_after :
        {m' : RwLock api debug} {s s' : Standing}
        → at i ≡ s
        → Change api debug posix (who i) m s m' s'
        → (j : ℕ) → owns (update at i s' j) ≡ true
        → m'.write_locked ≡ marks (update at i s' j)
    flag_after {s} {s'} e was_counted j h = ground (arith, flag j, flag i, single i j, unflagged)
    flag_after {s} {s'} e d j h = ground (arith, premise d, flag j, flag i, single i j, unflagged)

    unflagged_after :
        {m' : RwLock api debug} {s s' : Standing}
        → at i ≡ s
        → Change api debug posix (who i) m s m' s'
        → writer m'.lock ≡ none
        → m'.write_locked ≡ false
    unflagged_after {s} {s'} e was_counted h = ground (arith, unflagged, owner i, flag i)
    unflagged_after {s} {s'} e d h = ground (arith, premise d, unflagged, owner i, flag i)

    pub Change-Inv :
        {m' : RwLock api debug} {s s' : Standing}
        → at i ≡ s
        → s' ≢ astray
        → k < usize_mod
        → Change api debug posix (who i) m s m' s'
        → Inv api debug posix who k m' (update at i s')
    Change-Inv e ne few d = record {
      ready = ready_after e d;
      number = number_after e d;
      number_counted = counted_after e d few;
      apart = apart_after e d;
      owner = owner_after e d;
      held_by = held_after e d;
      single = single_after e d;
      flag = flag_after e d;
      unflagged = unflagged_after e d;
      placed = λ j. ground (arith, inv.placed j);
      beyond = λ j le. ground (arith, inv.beyond j);
    }
