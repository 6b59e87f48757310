-- ===== src/Lib.antt =====
-- pinned_sync: mutex, read-write lock, condition variable and barrier that stay where they are in
-- memory and are initialized there.
--
-- The program has three layers. At the bottom stand two helpers: sys_common/init_assert.rs, a cell
-- that is initialized once and asserts that it was, and sys_common/poison.rs, the flag that records
-- a panic while a lock was held. Above them each platform has its primitives without a value:
-- sys/unix calls pthreads, sys/fallback wraps those of the standard library. At the top mutex.rs,
-- rwlock.rs and condvar.rs add the value, the poisoning and the guards to the primitives of either
-- platform, and barrier.rs uses a mutex and a condition variable. (Paths are below src.)
--
-- Base        names of the libraries, Boolean tests, machine words, families of threads
-- Effect      what a call does: it changes a state, and returns, panics, blocks, aborts, or is
--             undefined behaviour; destructors in unwinding
-- Std         Result, PoisonError, TryLockError; std::sync (Std/Sync)
-- SysCommon   sys_common: Poison (poison.rs) and InitAssert (init_assert.rs). InitAssert/Threads
--             takes the same calls apart into atomic accesses of any number of threads, in one order;
--             InitAssert/Views does so with the orderings that the source names, where a load may
--             find an older write; Poison/Relaxed does it for the flag behind a lock.
-- Sys         Interface: what the top layer needs of a mutex and a read-write lock, as operations
--             and laws on an abstract phase; a thread that locks a mutex that it holds waits for
--             ever or panics, as the platform does. Unix and Fallback have the operations of sys/unix and
--             sys/fallback; the locks have a Contract that fills the laws. Unix/Libc has the pthread
--             calls as parameters, and what POSIX says of them as hypotheses. Unix/RwLock/Threads
--             takes the calls of the pthread lock apart into their accesses of its record;
--             Unix/RwLock/Runs relates them to the calls as a whole. Unix/Condvar has the
--             condition variable, Unix/Condvar/Time its deadlines.
-- Mutex       mutex.rs over any SysMutex: lock, try_lock, map, repoison, drop_guard (the Drop of
--             MutexGuard) and so on by the names of the source. Mutex/Threads is a relation of the
--             calls of any number of threads, Mutex/Invariant its invariant, Mutex/Values the value
--             against the writes, Mutex/Lifecycle a mutex before and after init.
-- RwLock      rwlock.rs over any SysRwLock, built in the same way; RwLock/Lifecycle is over pthreads.
-- Condvar     condvar.rs over any SysCondvar, whose World is all that the threads share.
--             Condvar/Make has the constructors; Condvar/OverUnix and Condvar/OverFallback fill
--             SysCondvar with the operations of either platform, Condvar/OverUnix/Timed the timed
--             loop over pthreads, Condvar/OverUnix/Lifecycle `init`. Condvar/Threads adds waits
--             to the relation of Mutex/Threads: a wait is a step that gives the mutex up, a wake-up,
--             and a step that takes it again. Condvar/Panics has conditions that panic.
-- Barrier     barrier.rs: `arrive` and `must_wait` are what `wait` does to the counters,
--             Barrier/Wait is `wait` as one call over Mutex and Condvar, Barrier/Threads has the
--             steps of `wait` of any number of threads with a lock of its own, and Barrier/Platform
--             the same steps made of the calls of Mutex over any SysMutex; Barrier/Platform/Uses
--             relates them to Condvar/Threads, Barrier/Platform/Runs and Counting count the calls
--             and steps of a run, and Barrier/Platform/Ended and Finish say how a run ends.
--             Barrier/Make has the constructors.
-- Traits      the fields of the types and their `unsafe impl`s, as far as Send and Sync go.
-- Tests       pthreads that behave as POSIX says, and runs at concrete inputs.
--
-- An object that is behind a reference in the source is the state that a call changes, so a guard
-- has no field for its lock. The thread that calls is an argument, with its number and whether it
-- is panicking. A number of type usize is below `usize_mod`, which is 2 ^ 64. A call that waits
-- ends with `blocked` in a state in which the thread cannot go on; threads interleave call by call
-- in Mutex and RwLock, and at each point where `wait` gives the lock up in Barrier. Atomics are
-- sequentially consistent, but for InitAssert/Views and Poison/Relaxed. A panic while the thread
-- panics aborts the process; `panicked` stands for its start.
--
-- The loops of `wait_while`, of `wait_timeout_while` and of the barrier run on fuel, one unit for
-- each round; without fuel the call still waits. No bound fits `wait_while` and the barrier, which
-- may wait for ever: one more than the number of waits until the condition is false is enough, and
-- the last thread of a group needs none. For `wait_timeout_while` of `dur` nanoseconds `dur + 2`
-- units are enough where the clock moves during every wait, and `(dur + 1) * (most + 1) + most + 1`
-- where it may stand still over `most` waits in a row. The generation of a barrier wraps around at 2 ^ 64: where a statement
-- needs that it has not, it bounds the number of calls.
--
-- Not modelled: the Debug instances, and weak memory outside of InitAssert and the poison flag.
pub mod Base
pub mod Effect
pub mod Std
pub mod SysCommon
pub mod Sys
pub mod Mutex
pub mod RwLock
pub mod Condvar
pub mod Barrier
pub mod Traits
mod Tests
