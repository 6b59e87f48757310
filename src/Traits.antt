-- ===== src/Traits.antt =====
-- Which types of the program are `Send` and `Sync`: the fields of src/mutex.rs, src/rwlock.rs,
-- src/condvar.rs, src/barrier.rs, src/sys and src/sys_common, and their `unsafe impl`s.
pub mod Laws
use pinned_sync.Base.{Bool, true, false, ◌&&◌, Option, none, some}

pub record Traits : Type 0 where
  pub send : Bool
  pub sync : Bool

-- A type as far as the two traits go. An `unsafe impl` of a struct says when the trait holds;
-- without one it holds if it holds of every field.
mutual
  pub data Ty : Type 0 where
    leaf : Traits → Ty
    unsafe_cell : Ty → Ty
    reference : Ty → Ty  -- `&T`, also in a `Pin`
    struct : (send sync : Option Bool) → Fields → Ty

  pub data Fields : Type 0 where
    end : Fields
    field : Ty → Fields → Fields

abbrev unless_stated : Option Bool → Bool → Bool
unless_stated none auto = auto
unless_stated (some stated) auto = stated

-- The rules of the language. `UnsafeCell<T>` is never `Sync`, and `&T` is `Send` if `T` is `Sync`.
unfoldable mutual
  pub traits : Ty → Traits
  traits (leaf t) = t
  traits (unsafe_cell t) = record { send = (traits t).send; sync = false }
  traits (reference t) = record { send = (traits t).sync; sync = (traits t).sync }
  traits (struct send sync fs) = record {
    send = unless_stated send (all_fields fs).send;
    sync = unless_stated sync (all_fields fs).sync;
  }

  pub all_fields : Fields → Traits
  all_fields end = record { send = true; sync = true }
  all_fields (field t fs) = record {
    send = (traits t).send && (all_fields fs).send;
    sync = (traits t).sync && (all_fields fs).sync;
  }

abbrev both : Traits
both = record { send = true; sync = true }

-- Integers, `bool`, atomics, `PhantomPinned` and the plain data of libc.
abbrev plain : Ty
plain = leaf both

-- `std::sync::MutexGuard`, `RwLockReadGuard` and `RwLockWriteGuard` at `()` stay in their thread.
abbrev std_guard : Ty
std_guard = leaf (record { send = false; sync = true })

abbrev auto : Fields → Ty
auto = struct none none

abbrev pub flag : Ty
flag = auto (field plain end)

abbrev pub poison_guard : Ty
poison_guard = auto (field plain end)

-- `MaybeUninit<T>` has the traits of `T`.
abbrev pub init_assert : Ty → Ty
init_assert t = auto (field plain (field (unsafe_cell t) end))

-- src/sys/mod.rs chooses one of the two.
pub data Platform : Type 0 where
  unix fallback : Platform

-- `std::sync::Mutex<()>`, `RwLock<()>` and `Condvar` are `Send` and `Sync`.
abbrev pub sys_mutex : Platform → Ty
sys_mutex unix = struct (some true) (some true) (field (init_assert plain) (field plain end))
sys_mutex fallback = auto (field (init_assert plain) end)

abbrev pub sys_mutex_guard : Platform → Ty
sys_mutex_guard unix = auto (field (reference (sys_mutex unix)) end)
sys_mutex_guard fallback = std_guard

-- The field `initialized` is there in debug builds only.
abbrev pub sys_rw_lock : Platform → (debug : Bool) → Ty
sys_rw_lock unix true = struct (some true) (some true) (
    field (unsafe_cell plain)
      (field (unsafe_cell plain) (field plain (field (init_assert plain) (field plain end)))))
sys_rw_lock unix false =
    struct (some true) (some true)
      (field (unsafe_cell plain) (field (unsafe_cell plain) (field plain (field plain end))))
sys_rw_lock fallback debug = auto (field (init_assert plain) end)

-- `ReadGuard` and `WriteGuard`.
abbrev pub sys_rw_guard : Platform → (debug : Bool) → Ty
sys_rw_guard unix debug = auto (field (reference (sys_rw_lock unix debug)) end)
sys_rw_guard fallback debug = std_guard

-- `checked` says that the field `initialized` is there.
abbrev pub sys_condvar : Platform → (checked : Bool) → Ty
sys_condvar unix true =
    struct (some true) (some true)
      (field (unsafe_cell plain) (field (init_assert plain) (field plain end)))
sys_condvar unix false =
    struct (some true) (some true) (field (unsafe_cell plain) (field plain end))
sys_condvar fallback checked = struct (some true) (some true) (field (init_assert plain) end)

module _ (os : Platform) where
  abbrev pub mutex : Ty → Ty
  mutex t =
      struct (some (traits t).send) (some ((traits t).send && (traits t).sync))
        (field (sys_mutex os) (field flag (field plain (field (unsafe_cell t) end))))

  abbrev pub mutex_guard : Ty → Ty
  mutex_guard t =
      struct none (some (traits t).sync)
        (field (sys_mutex_guard os) (field (reference (mutex t)) (field poison_guard end)))

  module _ (debug : Bool) where
    abbrev pub rw_lock : Ty → Ty
    rw_lock t =
        struct (some (traits t).send) (some ((traits t).send && (traits t).sync))
          (field (sys_rw_lock os debug) (field flag (field plain (field (unsafe_cell t) end))))

    abbrev pub rw_lock_read_guard : Ty → Ty
    rw_lock_read_guard t =
        struct none (some (traits t).sync)
          (field (sys_rw_guard os debug) (field (reference (rw_lock t)) end))

    abbrev pub rw_lock_write_guard : Ty → Ty
    rw_lock_write_guard t =
        struct none (some (traits t).sync)
          (field (sys_rw_guard os debug) (field (reference (rw_lock t)) (field poison_guard end)))

  module _ (checked : Bool) where
    abbrev pub condvar : Ty
    condvar = auto (field (sys_condvar os checked) (field plain end))

    -- The lock holds two numbers.
    abbrev pub barrier : Ty
    barrier =
        auto
          (field (mutex (auto (field plain (field plain end)))) (field condvar (field plain end)))
