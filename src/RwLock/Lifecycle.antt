-- ===== src/RwLock/Lifecycle.antt =====
-- A `RwLock` over pthreads before `init`, after it and after a second one, in debug and in release
-- builds (src/rwlock.rs, src/sys/unix/rwlock.rs).
use pinned_sync.Base.{◌≡◌, refl, true, false, some, ◌==ℤ◌, arith}
use pinned_sync.Effect.{returned, panicked}
use pinned_sync.Std.{ok, Thread}
use pinned_sync.SysCommon.Poison
use pinned_sync.SysCommon.InitAssert
use pinned_sync.SysCommon.InitAssert.{init_state, in_progress_state}
use pinned_sync.Sys.Interface.{SysRwLock}
use pinned_sync.Sys.Unix.Libc.{PthreadRwLock, PosixRwLock}
use pinned_sync.Sys.Unix.RwLock as Raw
use pinned_sync.Sys.Unix.RwLock.Writers.{write_free}
use pinned_sync.RwLock.{RwLock, RwLockWriteGuard, uninit, init, read, try_read, write, try_write}

module _ (api : PthreadRwLock) where
  abbrev debug_build : SysRwLock
  debug_build = Raw.sys_rw_lock api true

  abbrev release_build : SysRwLock
  release_build = Raw.sys_rw_lock api false

  module _ {T : Type 0} where
    -- No thread gets past any of the four methods, and nothing changes.
    abbrev pub AllPanic : Thread → RwLock debug_build T → Type 0
    AllPanic th m =
        (read debug_build th m ≡ (panicked, m))
        × (try_read debug_build th m ≡ (panicked, m))
        × (write debug_build th m ≡ (panicked, m))
        × (try_write debug_build th m ≡ (panicked, m))

    unready-AllPanic :
        (th : Thread) (m : RwLock debug_build T)
        → (m.inner.initialized.state ==ℤ init_state) ≡ false
        → AllPanic th m
    unfolding read try_read write try_write Raw.read Raw.try_read Raw.write Raw.try_write
        InitAssert.get
    unready-AllPanic th m e = (ground arith, ground arith, ground arith, ground arith)

    -- In a debug build every method that locks panics before `init`, and changes nothing. `init`
    -- works once, and after it a thread can write. A second `init`, even while a thread has the
    -- guard, panics, and from then on the four methods panic. In a release build `init` does
    -- nothing, and a thread can write without it.
    rw_init_once :
        (posix : PosixRwLock api) (value : T) (th other : Thread)
        → AllPanic th (uninit debug_build value)
          × ((m : RwLock debug_build T) × (g : RwLockWriteGuard debug_build) × (m' : RwLock
                debug_build T)
              × (m'' : RwLock debug_build T) × (init debug_build (uninit debug_build value)
                  ≡ (returned tt, m))
              × (write debug_build th m ≡ (returned (ok g), m'))
              × (init debug_build m' ≡ (panicked, m''))
              × AllPanic other m'')
          × (init release_build (uninit release_build value)
              ≡ (returned tt, uninit release_build value))
          × ((g : RwLockWriteGuard release_build) × (m : RwLock release_build T) × (write
                  release_build th
                  (uninit release_build value)
                ≡ (returned (ok g), m)))
    unfolding uninit init write Raw.uninit Raw.init InitAssert.new InitAssert.init Poison.new
        Poison.borrow Poison.map_result Poison.get
    rw_init_once posix value th other =
        let before = uninit debug_build value in
        let fresh = posix.fresh in
        let after : debug_build.Raw = record before.inner {
          initialized = record { state = init_state; cell = some tt };
        } in
        let (g, r, e, h) =
          write_free api true posix th after (λ _. refl, fresh.0, fresh.1, refl, refl) in
        let (g', r', e', h') =
          write_free api false posix th (uninit release_build value).inner
            (λ f. absurd (ground arith), fresh.0, fresh.1, refl, refl) in
        let noted : Poison.Guard = record { panicking = th.panicking } in
        let lock_of : debug_build.Raw → RwLock debug_build T =
          λ r. record { inner = r; poison = Poison.new; cell = value } in
        let broken : debug_build.Raw = record r {
          initialized = record r.initialized { state = in_progress_state };
        } in
        (
          unready-AllPanic th before refl,
          (
            lock_of after,
            record { guard = g; poison = noted },
            lock_of r,
            lock_of broken,
            ground arith,
            ground arith,
            ground (arith, h.0 refl),
            unready-AllPanic other (lock_of broken) refl,
          ),
          refl,
          (
            record { guard = g'; poison = noted },
            record { inner = r'; poison = Poison.new; cell = value },
            ground arith,
          ),
        )
