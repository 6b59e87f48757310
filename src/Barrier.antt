-- ===== src/Barrier.antt =====
-- src/barrier.rs: what `Barrier::wait` does to the counters while it has the lock.
pub mod Threads
pub mod Invariant
pub mod Safety
pub mod Progress
pub mod Make
pub mod Wait
pub mod Platform
use pinned_sync.Base.{ℕ, ◌+◌, Bool, true, false, ◌&&◌, ltb, ◌==◌, if◌then◌else◌, wrapping_add}

pub record BarrierState : Type 0 where
  pub count : ℕ
  pub generation_id : ℕ

unfoldable pub uninit_state : BarrierState
uninit_state = record { count = 0; generation_id = 0 }

-- `count += 1`, and the two assignments of the last thread. `true` is the branch of the leader.
unfoldable pub arrive : (num_threads : ℕ) → BarrierState → Bool × BarrierState
arrive num_threads lock =
    let count = wrapping_add lock.count 1 in
    if ltb count num_threads
    then (false, record lock { count = count })
    else (true, record { count = 0; generation_id = wrapping_add lock.generation_id 1 })

-- The condition of the `while`.
unfoldable pub must_wait : (num_threads local_gen : ℕ) → BarrierState → Bool
must_wait num_threads local_gen lock = local_gen == lock.generation_id && ltb lock.count num_threads

pub record BarrierWaitResult : Type 0 where
  pub value : Bool

unfoldable pub is_leader : BarrierWaitResult → Bool
is_leader r = r.value
