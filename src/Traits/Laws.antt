-- ===== src/Traits/Laws.antt =====
-- What the compiler lets threads share and send of the program's types.
use pinned_sync.Base.{◌≡◌, refl, Bool, true, false, ◌&&◌, arith}
use pinned_sync.Traits.{
  Ty, Traits, struct, traits, all_fields, unix, fallback, mutex_guard, rw_lock_read_guard,
  rw_lock_write_guard,
}

-- A guard over the fallback platform stays in the thread that locked. A guard over pthreads does
-- not: it may be sent to another thread, which then unlocks, exactly if the lock may be shared.
pub guards_leave_thread :
    (debug : Bool) (t : Ty)
    → let lock_shared : Bool = (traits t).send && (traits t).sync in
      ((traits (mutex_guard unix t)).send ≡ lock_shared)
      × ((traits (rw_lock_read_guard unix debug t)).send ≡ lock_shared)
      × ((traits (rw_lock_write_guard unix debug t)).send ≡ lock_shared)
      × ((traits (mutex_guard fallback t)).send ≡ false)
      × ((traits (rw_lock_read_guard fallback debug t)).send ≡ false)
      × ((traits (rw_lock_write_guard fallback debug t)).send ≡ false)
unfolding traits
guards_leave_thread true t = (ground arith, ground arith, ground arith, refl, refl, refl)
guards_leave_thread false t = (ground arith, ground arith, ground arith, refl, refl, refl)

-- What a type is by its fields alone, without an `unsafe impl` of its own.
abbrev pub by_fields : Ty → Traits
by_fields (struct _ _ fs) = all_fields fs
by_fields t = traits t
