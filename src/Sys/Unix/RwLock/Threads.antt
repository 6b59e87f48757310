-- ===== src/Sys/Unix/RwLock/Threads.antt =====
-- Calls of src/sys/unix/rwlock.rs by any number of threads on one lock that was initialized, taken
-- apart into its calls of pthreads and its accesses of `write_locked` and `num_readers`.
use pinned_sync.Base.{
  ℕ, ◌+◌, ◌-◌, ◌%◌, ◌<◌, ◌≡◌, Bool, true, false, not, ◌&&◌, some, ◌==◌, if◌then◌else◌, update,
  usize_mod, wrapping_add,
}
use pinned_sync.Effect.{returned, panicked}
use pinned_sync.Sys.Unix.Libc.{PthreadRwLock}
use pinned_sync.Sys.Unix.RwLock.{RwLock, uninit, init, check_init}

-- Where a call stands, with the guard that it may return. `tries` tells `try_read` from `read`, and
-- `try_write` from `write`.
pub data Pc : Type 0 where
  outside : Pc
  reading : (tries : Bool) → Pc  -- before the call of pthreads
  read_granted : (tries : Bool) → Pc  -- before the read of `write_locked`
  counting : Pc  -- before `fetch_add`
  read_held : Pc  -- has the guard
  read_dropping : Pc  -- before the read of `write_locked` in `drop`
  uncounting : Pc  -- before `fetch_sub`
  read_unlocking : Pc  -- before `unlock` in `drop`
  writing : (tries : Bool) → Pc  -- before the call of pthreads
  write_granted : (tries : Bool) → Pc  -- before the read of `write_locked`
  readers_unknown : (tries : Bool) → Pc  -- before the load of `num_readers`
  code_unknown : Pc  -- the same, after neither 0 nor EDEADLK
  marking : Pc  -- before `write_locked` is set
  write_held : Pc  -- has the guard
  write_dropping : Pc  -- before the load of `num_readers` in `drop`
  flag_unknown : Pc  -- before the read of `write_locked` in `drop`
  clearing : Pc  -- before `write_locked` is reset
  write_unlocking : Pc  -- before `unlock` in `drop`
  refusing : (tries : Bool) → Pc  -- granted what it should not be, before `unlock`
  failed : Pc  -- an assertion did not hold

module _ (api : PthreadRwLock) (debug : Bool) where
  open api use {eagain, edeadlk, tryrdlock, rdlock, trywrlock, wrlock, unlock as pthread_unlock}

  -- Where a call goes on after its call of pthreads. One that panics is over, and has nothing.
  abbrev pub after_rdlock : (code : ℕ) → Pc
  after_rdlock code =
      if code == eagain
      then outside
      else if code == edeadlk
      then outside
      else if code == 0
      then read_granted false
      else if debug
      then failed
      else counting

  abbrev pub after_tryrdlock : (code : ℕ) → Pc
  after_tryrdlock code = if code == 0 then read_granted true else outside

  abbrev pub after_wrlock : (code : ℕ) → Pc
  after_wrlock code =
      if code == edeadlk then outside else if code == 0 then write_granted false else code_unknown

  abbrev pub after_trywrlock : (code : ℕ) → Pc
  after_trywrlock code = if code == 0 then write_granted true else outside

  abbrev pub after_unlock : (code : ℕ) → Pc
  after_unlock code = if debug && not (code == 0) then failed else outside

  -- The steps of a call of thread `t`.
  pub data Move (t : ℕ) (m : RwLock api debug) : Pc → RwLock api debug → Pc → Type 0 where
    enter_read :
        (tries : Bool) {m' : RwLock api debug}
        → check_init api debug m ≡ (returned tt, m')
        → Move t m outside m' (reading tries)
    enter_write :
        (tries : Bool) {m' : RwLock api debug}
        → check_init api debug m ≡ (returned tt, m')
        → Move t m outside m' (writing tries)
    not_initialized :
        {m' : RwLock api debug}
        → check_init api debug m ≡ (panicked, m')
        → Move t m outside m' failed
    rdlock_answers :
        {code : ℕ} {l : api.Lock}
        → rdlock t m.lock ≡ some (code, l)
        → Move t m (reading false) (record m { lock = l }) (after_rdlock code)
    tryrdlock_answers :
        {code : ℕ} {l : api.Lock}
        → tryrdlock t m.lock ≡ (code, l)
        → Move t m (reading true) (record m { lock = l }) (after_tryrdlock code)
    test_read :
        {tries : Bool}
        → Move t m (read_granted tries) m (if m.write_locked then refusing tries else counting)
    count : Move t m counting (record m { num_readers = wrapping_add m.num_readers 1 }) read_held
    drop_read : Move t m read_held m (if debug then read_dropping else uncounting)
    assert_unlocked : Move t m read_dropping m (if m.write_locked then failed else uncounting)
    uncount :
        Move t m uncounting
          (record m { num_readers = (m.num_readers + usize_mod - 1) % usize_mod })
          read_unlocking
    unlock_read :
        {code : ℕ} {l : api.Lock}
        → pthread_unlock t m.lock ≡ (code, l)
        → Move t m read_unlocking (record m { lock = l }) (after_unlock code)
    wrlock_answers :
        {code : ℕ} {l : api.Lock}
        → wrlock t m.lock ≡ some (code, l)
        → Move t m (writing false) (record m { lock = l }) (after_wrlock code)
    trywrlock_answers :
        {code : ℕ} {l : api.Lock}
        → trywrlock t m.lock ≡ (code, l)
        → Move t m (writing true) (record m { lock = l }) (after_trywrlock code)
    test_write :
        {tries : Bool}
        → Move t m
            (write_granted tries)
            m
            (if m.write_locked then refusing tries else readers_unknown tries)
    test_readers :
        {tries : Bool}
        → Move t m
            (readers_unknown tries)
            m
            (if m.num_readers == 0 then marking else refusing tries)
    test_anyway :
        Move t m code_unknown m
          (if m.num_readers == 0 then (if debug then failed else marking) else outside)
    mark : Move t m marking (record m { write_locked = true }) write_held
    drop_write : Move t m write_held m (if debug then write_dropping else clearing)
    assert_no_readers :
        Move t m write_dropping m (if m.num_readers == 0 then flag_unknown else failed)
    assert_locked : Move t m flag_unknown m (if m.write_locked then clearing else failed)
    clear : Move t m clearing (record m { write_locked = false }) write_unlocking
    unlock_write :
        {code : ℕ} {l : api.Lock}
        → pthread_unlock t m.lock ≡ (code, l)
        → Move t m write_unlocking (record m { lock = l }) (after_unlock code)
    refuse :
        {tries : Bool} {code : ℕ} {l : api.Lock}
        → pthread_unlock t m.lock ≡ (code, l)
        → Move t m (refusing tries) (record m { lock = l }) (after_unlock code)

  pub record System : Type 0 where
    pub mem : RwLock api debug
    pub pc : ℕ → Pc

  -- `who i` is the thread of place `i`, which may have several guards.
  module _ (who : ℕ → ℕ) (places : ℕ) where
    pub data Step (s : System) : System → Type 0 where
      pick :
          (i : ℕ) {m : RwLock api debug} {p : Pc}
          → i < places
          → Move (who i) s.mem (s.pc i) m p
          → Step s (record { mem = m; pc = update s.pc i p })

    pub data Reach : System → Type 0 where
      made :
          {m : RwLock api debug}
          → init api debug (uninit api debug) ≡ (returned tt, m)
          → Reach (record { mem = m; pc = λ _. outside })
      later : {s t : System} → Reach s → Step s t → Reach t
