-- ===== src/Tests/TraitBounds.antt =====
-- Locks of a value that may be sent but not shared, like a `Cell` (src/mutex.rs, src/rwlock.rs).
use pinned_sync.Base.{◌≡◌, true, false}
use pinned_sync.Traits.{
  Ty, leaf, traits, unix, fallback, mutex_guard, rw_lock_read_guard, rw_lock_write_guard,
}
use pinned_sync.Traits.Laws.{guards_leave_thread}

abbrev cell : Ty
cell = leaf (record { send = true; sync = false })

abbrev integer : Ty
integer = leaf (record { send = true; sync = true })

guards_leave_thread_example :
    ((traits (mutex_guard unix integer)).send ≡ true)
    × ((traits (rw_lock_read_guard unix false integer)).send ≡ true)
    × ((traits (rw_lock_write_guard unix false integer)).send ≡ true)
    × ((traits (mutex_guard fallback integer)).send ≡ false)
    × ((traits (rw_lock_read_guard fallback false integer)).send ≡ false)
    × ((traits (rw_lock_write_guard fallback false integer)).send ≡ false)
unfolding traits
guards_leave_thread_example = guards_leave_thread false integer
