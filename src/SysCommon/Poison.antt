-- ===== src/SysCommon/Poison.antt =====
-- src/sys_common/poison.rs: the flag that records a panic while a lock was held.
pub mod History
pub mod Relaxed
pub mod Fresh
use pinned_sync.Base.{Bool, true, false, not, ◌&&◌, if◌then◌else◌}
use pinned_sync.Std.{ok, err, LockResult, poison_error, Thread}

pub record Flag : Type 0 where
  pub failed : Bool

pub record Guard : Type 0 where
  pub panicking : Bool

unfoldable pub new : Flag
new = record { failed = false }

unfoldable pub get : Flag → Bool
get f = f.failed

unfoldable pub borrow : Thread → Flag → LockResult Guard
unfolding get
borrow th f =
    let ret : Guard = record { panicking = th.panicking } in
    if get f then err (poison_error ret) else ok ret

unfoldable pub done : Thread → Guard → Flag → Flag
done th g f = if not g.panicking && th.panicking then record { failed = true } else f

unfoldable pub map_result {ℓ κ} : {T : Type ℓ} {U : Type κ} → LockResult T → (T → U) → LockResult U
map_result (ok t) f = ok (f t)
map_result (err e) f = err (poison_error (f e.guard))
