-- ===== src/Sys/Unix/RwLock/Standing.antt =====
-- What a place in a call of src/sys/unix/rwlock.rs has of the lock, and how the steps change that,
-- over a C library that grants no lock when it should not.
use pinned_sync.Base.{
  ℕ, suc, ◌+◌, ◌-◌, ◌%◌, ◌≤◌, ◌≡◌, ◌≢◌, ◌⊎◌, Bool, true, false, none, some, total, usize_mod,
  wrapping_add,
}
use pinned_sync.Sys.Unix.Libc.{PthreadRwLock, PosixRwLock}
use pinned_sync.Sys.Unix.RwLock.{RwLock}
use pinned_sync.Sys.Unix.RwLock.Access.{IsReady}
use pinned_sync.Sys.Unix.RwLock.Threads.{
  Pc, outside, reading, read_granted, counting, read_held, read_dropping, uncounting,
  read_unlocking, writing, write_granted, readers_unknown, code_unknown, marking, write_held,
  write_dropping, flag_unknown, clearing, write_unlocking, refusing, failed,
}

pub data Standing : Type 0 where
  absent : Standing
  sharing : Standing  -- one of the readers of the pthread lock
  counted : Standing  -- and in `num_readers` too
  owning : Standing  -- the writer of the pthread lock
  marked : Standing  -- and `write_locked` is set
  astray : Standing  -- where no call should come

abbrev pub standing : Pc → Standing
standing outside = absent
standing (reading _) = absent
standing (read_granted _) = sharing
standing counting = sharing
standing read_held = counted
standing read_dropping = counted
standing uncounting = counted
standing read_unlocking = sharing
standing (writing _) = absent
standing (write_granted _) = owning
standing (readers_unknown _) = owning
standing code_unknown = astray
standing marking = owning
standing write_held = marked
standing write_dropping = marked
standing flag_unknown = marked
standing clearing = marked
standing write_unlocking = owning
standing (refusing _) = astray
standing failed = astray

abbrev pub shares : Standing → ℕ
shares s = elim s [ sharing ↦ 1 | counted ↦ 1 | _ ↦ 0 ]

abbrev pub counts : Standing → ℕ
counts s = elim s [ counted ↦ 1 | _ ↦ 0 ]

abbrev pub owns : Standing → Bool
owns s = elim s [ owning ↦ true | marked ↦ true | _ ↦ false ]

abbrev pub marks : Standing → Bool
marks s = elim s [ marked ↦ true | _ ↦ false ]

module _ (api : PthreadRwLock) (debug : Bool) (posix : PosixRwLock api) where
  open posix use {readers, writer}

  -- What a step of thread `t` does to the lock and to the standing.
  pub data Change (t : ℕ) (m : RwLock api debug)
      : Standing → RwLock api debug → Standing → Type 0 where
    none_changed : {s : Standing} {m' : RwLock api debug} → m' ≡ m → Change t m s m' s
    share_granted :
        {l : api.Lock}
        → writer m.lock ≡ none
        → readers l ≡ suc (readers m.lock)
        → writer l ≡ none
        → Change t m absent (record m { lock = l }) sharing
    was_counted :
        Change t m sharing (record m { num_readers = wrapping_add m.num_readers 1 }) counted
    was_uncounted :
        Change t m counted
          (record m { num_readers = (m.num_readers + usize_mod - 1) % usize_mod })
          sharing
    share_returned :
        {l : api.Lock}
        → suc (readers l) ≡ readers m.lock
        → writer l ≡ none
        → Change t m sharing (record m { lock = l }) absent
    lock_granted :
        {l : api.Lock}
        → readers m.lock ≡ 0
        → writer m.lock ≡ none
        → readers l ≡ 0
        → writer l ≡ some t
        → Change t m absent (record m { lock = l }) owning
    was_marked : Change t m owning (record m { write_locked = true }) marked
    was_cleared : Change t m marked (record m { write_locked = false }) owning
    lock_returned :
        {l : api.Lock}
        → readers l ≡ 0
        → writer l ≡ none
        → Change t m owning (record m { lock = l }) absent

  pub record Inv (who : ℕ → ℕ) (places : ℕ) (m : RwLock api debug) (at : ℕ → Standing)
      : Type 0 where
    pub ready : IsReady api debug posix m
    pub number : readers m.lock ≡ total shares places at
    pub number_counted : m.num_readers ≡ total counts places at
    pub apart : (readers m.lock ≡ 0) ⊎ (writer m.lock ≡ none)
    pub owner : (i : ℕ) → owns (at i) ≡ true → writer m.lock ≡ some (who i)
    pub held_by : (u : ℕ) → writer m.lock ≡ some u → (i : ℕ) × (owns (at i) ≡ true)
    pub single : (i j : ℕ) → owns (at i) ≡ true → owns (at j) ≡ true → i ≡ j
    pub flag : (i : ℕ) → owns (at i) ≡ true → m.write_locked ≡ marks (at i)
    pub unflagged : writer m.lock ≡ none → m.write_locked ≡ false
    pub placed : (i : ℕ) → at i ≢ astray
    pub beyond : (i : ℕ) → places ≤ i → at i ≡ absent
