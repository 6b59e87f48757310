-- ===== src/Sys/Fallback/Condvar.antt =====
-- src/sys/fallback/condvar.rs: a condition variable of the standard library behind an `InitAssert`.
use pinned_sync.Base.{ℕ, Bool, true, not, none, some}
use pinned_sync.Effect.{returned, undefined, M, pure, on, on_unwind, ◌>>=◌, ◌>>◌}
use pinned_sync.Std.{Thread}
use pinned_sync.Std.Sync.{StdGuard, StdCondvar}
use pinned_sync.SysCommon.InitAssert
use pinned_sync.SysCommon.InitAssert.{InitAssert}
use pinned_sync.Sys.Fallback.{ignore_poison}

-- `drop_guard` is the destructor of the guard that a wait is given, which is the library's.
module _ {W : Type 0} (std : StdCondvar W) (drop_guard : Thread → StdGuard → M W (Unit {0})) where
  open std use {
    Cond, new as std_new, notify_one as std_notify_one, notify_all as std_notify_all,
    wait as std_wait, wait_timeout as std_wait_timeout,
  }

  pub record Condvar : Type 0 where
    pub inner : InitAssert Cond

  abbrev on_init : {A : Type 0} → M (InitAssert Cond) A → M Condvar A
  on_init = on (λ c. c.inner) (λ i c. record { inner = i })

  unfoldable pub uninit : Condvar
  uninit = record { inner = InitAssert.new }

  unfoldable pub init : M Condvar (Unit {0})
  unfolding InitAssert.init
  init = on_init (InitAssert.init (returned std_new))

  -- From here on the state has the rest of the world beside the object.
  abbrev check : M (Condvar × W) (Unit {0})
  unfolding InitAssert.get_ref
  check = on (λ s. s.0) (λ c s. (c, s.1)) (on_init (InitAssert.get_ref >>= λ _. pure tt))

  -- A call on the reference that `get_ref` gives works on the cell.
  abbrev on_cond : {A : Type 0} → M (Cond × W) A → M (Condvar × W) A
  on_cond m s = elim s.0.inner.cell [
    | none ↦ (undefined, s)
    | some c ↦
        let (r, t) = m (c, s.1) in
        (r, (record { inner = record { state = s.0.inner.state; cell = some t.0 } }, t.1))
  ]

  unfoldable pub notify_one : M (Condvar × W) (Unit {0})
  unfolding InitAssert.get_ref
  notify_one = do check; on_cond std_notify_one

  unfoldable pub notify_all : M (Condvar × W) (Unit {0})
  unfolding InitAssert.get_ref
  notify_all = do check; on_cond std_notify_all

  -- `get_ref` comes first; if it panics, the guard is dropped by a thread that is panicking then.
  abbrev guarded : {A : Type 0} → Thread → StdGuard → M (Condvar × W) A → M (Condvar × W) A
  guarded th lock m =
      on_unwind
        (on (λ s. s.1) (λ w s. (s.0, w))
          (drop_guard (record { id = th.id; panicking = true }) lock))
        check
      >> m

  unfoldable pub wait : Thread → StdGuard → M (Condvar × W) StdGuard
  unfolding InitAssert.get_ref ignore_poison
  wait th lock = guarded th lock do result ← on_cond (std_wait th lock); pure (ignore_poison result)

  unfoldable pub wait_timeout : Thread → StdGuard → (dur : ℕ) → M (Condvar × W) (Bool × StdGuard)
  unfolding InitAssert.get_ref ignore_poison
  wait_timeout th lock dur = guarded th lock do
    result ← on_cond (std_wait_timeout th lock dur)
    let (guard, timed_out) = ignore_poison result
    pure (not timed_out, guard)
