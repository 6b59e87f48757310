-- ===== src/RwLock/Invariant.antt =====
-- The invariant of threads that use one `RwLock` (src/rwlock.rs), call by call.
use pinned_sync.Base.{
  ℕ, suc, ◌<◌, ◌≡◌, refl, ◌≢◌, ◌⊎◌, inl, inr, none, some, arith, ◌==◌, Bool-cases, subst, sym,
  usize_mod, [],
}
use pinned_sync.Effect.{returned}
use pinned_sync.Std.{inner_of, Thread}
use pinned_sync.SysCommon.Poison
use pinned_sync.SysCommon.Poison.History.{any_panics}
use pinned_sync.Sys.Interface.{SysRwLock, Access, shared, exclusive, SysRwLockLaws}
use pinned_sync.RwLock.{
  RwLock, RwLockReadGuard, RwLockWriteGuard, boxed, is_poisoned, deref_mut, drop_read, drop_write,
}
use pinned_sync.RwLock.Calls.{
  IsLive, ReadAcquired, WriteAcquired, read-ReadAcquired, try_read-ReadAcquired,
  try_read-ReadAcquired_poisoned, try_read_would_block, write-WriteAcquired,
  try_write-WriteAcquired, try_write-WriteAcquired_poisoned, try_write_would_block,
}
use pinned_sync.RwLock.Threads.{
  System, add_read, add_write, end_write, Step, was_read, try_was_read, try_was_read_poisoned,
  try_read_failed, was_written, try_was_written, try_was_written_poisoned, try_write_failed,
  assigned, read_dropped, write_dropped, Reach, made, later,
}

module _ (sys : SysRwLock) (InAccess : sys.Raw → Access → Type 0)
    (laws : SysRwLockLaws sys InAccess) where
  module _ {T : Type 0} where
    abbrev pub Shared : System sys T → Type 0
    Shared s = InAccess s.lock.inner (shared s.reads) × ((i : ℕ) → s.writers i ≡ none)

    abbrev pub Exclusive : System sys T → ℕ → Type 0
    Exclusive s u =
        InAccess s.lock.inner (exclusive u)
        × (s.reads ≡ 0)
        × (s.writers u ≢ none)
        × ((i : ℕ) → i ≢ u → s.writers i ≡ none)

    pub record Inv (s : System sys T) : Type 0 where
      pub owned : Shared s ⊎ ((u : ℕ) × Exclusive s u)
      pub small : s.reads < usize_mod
      pub noted :
          (i : ℕ) (g : RwLockWriteGuard sys)
          → s.writers i ≡ some g
          → g.poison.panicking ≡ (s.begun i).panicking
      pub recorded : is_poisoned sys s.lock ≡ any_panics s.history

    pub Inv-IsLive : {s : System sys T} → Inv s → IsLive sys InAccess laws s.reads s.lock
    Inv-IsLive inv = elim inv.owned [ inl free ↦ inl free.0 | inr (u, h) ↦ inr (u, h.0) ]

    pub shared-Shared :
        {s : System sys T} → Inv s → InAccess s.lock.inner (shared s.reads) → Shared s
    shared-Shared {s} inv f = elim inv.owned [
      | inl free ↦ free
      | inr (u, h) ↦ absurd (laws.shared_not_exclusive s.reads u s.lock.inner f h.0)
    ]

    pub holder :
        {s : System sys T} {g : RwLockWriteGuard sys}
        → Inv s
        → (i : ℕ) → s.writers i ≡ some g
        → Exclusive s i
    holder {s} inv i e = elim inv.owned [
      | inl free ↦ absurd (ground (arith, free.1 i))
      | inr (u, h) ↦ elim (Bool-cases (i == u)) [
        | inl same ↦ subst (λ k. Exclusive s k) (sym (ground arith)) h
        | inr other ↦ absurd (ground (arith, h.3 i))
      ]
    ]

    add_read-Inv :
        {s : System sys T} (m : RwLock sys T)
        → Inv s
        → suc s.reads < usize_mod
        → ReadAcquired sys InAccess laws s.reads s.lock m
        → Inv (add_read sys T s m)
    unfolding is_poisoned
    add_read-Inv {s} m inv room a = record {
      owned = inl (a.now_shared, (shared-Shared inv a.was_shared).1);
      small = room;
      noted = inv.noted;
      recorded = ground (arith, inv.recorded);
    }

    add_write-Inv :
        {s : System sys T} (th : Thread) (m : RwLock sys T) (g : RwLockWriteGuard sys)
        → Inv s
        → WriteAcquired sys InAccess laws th s.reads s.lock m g
        → Inv (add_write sys T s th m g)
    unfolding is_poisoned
    add_write-Inv {s} th m g inv a =
        let free = shared-Shared inv a.was_shared in
        record {
          owned = inr (
            th.id,
            (a.now_exclusive, a.no_reader, ground arith, λ i ne. ground (arith, free.1 i)),
          );
          small = inv.small;
          noted = λ i h e. ground (arith, inv.noted i h);
          recorded = ground (arith, inv.recorded);
        }

    assign-Inv :
        {s : System sys T} (g : RwLockWriteGuard sys) (value : T) (m : RwLock sys T)
        → Inv s
        → deref_mut sys g value s.lock ≡ (returned tt, m)
        → Inv (record s { lock = m })
    unfolding deref_mut is_poisoned
    assign-Inv {s} g value m inv e = record {
      owned = elim inv.owned [
        | inl free ↦ inl (ground arith, free.1)
        | inr (u, h) ↦ inr (u, (ground arith, h.1, h.2, h.3))
      ];
      small = inv.small;
      noted = inv.noted;
      recorded = ground (arith, inv.recorded);
    }

    drop_read-Inv :
        {s : System sys T} (th : Thread) (g : RwLockReadGuard sys) (c : ℕ) (m : RwLock sys T)
        → Inv s
        → s.reads ≡ suc c
        → drop_read sys th g s.lock ≡ (returned tt, m)
        → Inv (record s { lock = m; reads = c })
    unfolding drop_read is_poisoned
    drop_read-Inv {s} th g c m inv e d = elim inv.owned [
      | inl free ↦
          let (raw, d', h) =
            laws.drop_read_shared th g.guard c s.lock.inner (omega (arith, inv.small))
              (subst (λ k. InAccess s.lock.inner (shared k)) e free.0) in
          record {
            owned = inl (ground arith, free.1);
            small = omega (arith, inv.small);
            noted = inv.noted;
            recorded = ground (arith, inv.recorded);
          }
      | inr (u, h) ↦ absurd (omega (arith, h.1))
    ]

    end_write-Inv :
        {s : System sys T} (th : Thread) (g : RwLockWriteGuard sys) (m : RwLock sys T)
        → Inv s
        → s.writers th.id ≡ some g
        → drop_write sys th g s.lock ≡ (returned tt, m)
        → Inv (end_write sys T s th m)
    unfolding drop_write is_poisoned Poison.done Poison.get
    end_write-Inv {s} th g m inv e d =
        let h = holder inv th.id e in
        let (raw, d', f) = laws.drop_write_exclusive th g.guard s.lock.inner h.0 in
        record {
          owned = inl (ground (arith, h.1), λ i. ground (arith, h.3 i));
          small = inv.small;
          noted = λ i k q. ground (arith, inv.noted i k);
          recorded = ground (arith, inv.recorded, inv.noted th.id g e);
        }

    same_lock-Inv :
        {s : System sys T} (m : RwLock sys T) → Inv s → m ≡ s.lock → Inv (record s { lock = m })
    same_lock-Inv {s} m inv e = subst (λ k. Inv (record s { lock = k })) (sym e) inv

    Step-Inv : {s t : System sys T} → Step sys T s t → Inv s → Inv t
    Step-Inv {s} (was_read th {r} {m} room e) inv =
        add_read-Inv m inv room
          (read-ReadAcquired sys InAccess laws th s.reads s.lock m (Inv-IsLive inv) r room e).0
    Step-Inv {s} (try_was_read th {g} {m} room e) inv =
        add_read-Inv m inv room
          (try_read-ReadAcquired sys InAccess laws th s.reads s.lock m (Inv-IsLive inv) g room e)
    Step-Inv {s} (try_was_read_poisoned th {e = p} {m} room e) inv = add_read-Inv m inv room (
        try_read-ReadAcquired_poisoned sys InAccess laws th s.reads s.lock m (Inv-IsLive inv) p room
          e)
    Step-Inv {s} (try_read_failed th {m} room e) inv =
        same_lock-Inv m inv
          (try_read_would_block sys InAccess laws th s.reads s.lock m (Inv-IsLive inv) room e)
    Step-Inv {s} (was_written th {r} {m} e) inv =
        add_write-Inv th m (inner_of r) inv
          (write-WriteAcquired sys InAccess laws th s.reads s.lock m (Inv-IsLive inv) r e).0
    Step-Inv {s} (try_was_written th {g} {m} e) inv =
        add_write-Inv th m g inv
          (try_write-WriteAcquired sys InAccess laws th s.reads s.lock m (Inv-IsLive inv) g e)
    Step-Inv {s} (try_was_written_poisoned th {e = p} {m} e) inv = add_write-Inv th m p.guard inv (
        try_write-WriteAcquired_poisoned sys InAccess laws th s.reads s.lock m (Inv-IsLive inv) p e)
    Step-Inv {s} (try_write_failed th {m} e) inv =
        same_lock-Inv m inv
          (try_write_would_block sys InAccess laws th s.reads s.lock m (Inv-IsLive inv) e)
    Step-Inv (assigned th {g} {m} value h e) inv = assign-Inv g value m inv e
    Step-Inv (read_dropped th g {c} {m} h e) inv = drop_read-Inv th g c m inv h e
    Step-Inv (write_dropped th {g} {m} h e) inv = end_write-Inv th g m inv h e

    made-Inv :
        (value : T) (begun : ℕ → Thread) (m : RwLock sys T)
        → boxed sys value ≡ (returned tt, m)
        → Inv (record { lock = m; reads = 0; writers = λ _. none; begun = begun; history = [] })
    unfolding boxed is_poisoned Poison.get
    made-Inv value begun m e =
        let (raw, e', f) = laws.init_unready sys.uninit laws.uninit_unready in
        record {
          owned = inl (ground arith, λ i. refl);
          small = omega arith;
          noted = λ i g q. cc;
          recorded = ground arith;
        }

    pub Reach-Inv : {s : System sys T} → Reach sys T s → Inv s
    Reach-Inv (made value begun {m} e) = made-Inv value begun m e
    Reach-Inv (later r st) = Step-Inv st (Reach-Inv r)
