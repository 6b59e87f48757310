-- ===== src/SysCommon/InitAssert/Laws.antt =====
-- What any sequence of calls on one `InitAssert` sees (src/sys_common/init_assert.rs).
use pinned_sync.Base.{◌≡◌, ◌≢◌, refl, ◌⊎◌, inl, inr, List, [], ◌∷◌, some, arith}
use pinned_sync.Effect.{Outcome, returned, panicked, blocked, undefined, aborted, M}
use pinned_sync.SysCommon.InitAssert.{
  InitAssert, init_state, in_progress_state, new, init, get_ref, drop,
}

-- `init` with a closure that ends in the given way, or `get_ref`.
pub data Call (T : Type 0) : Type 0 where
  call_init : Outcome T → Call T
  call_get_ref : Call T

module _ {T : Type 0} where
  -- What a call makes of the object, and what calls make of a new one, the latest call first.
  pub after : Call T → InitAssert T → InitAssert T
  unfolding init get_ref
  after (call_init f) s = (init f s).1
  after call_get_ref s = (get_ref s).1

  unfoldable pub after_all : List (Call T) → InitAssert T
  unfolding new after
  after_all [] = new
  after_all (c ∷ cs) = after c (after_all cs)

  -- The calls of `init` among them.
  abbrev pub inits : List (Call T) → List (Outcome T)
  inits [] = []
  inits (call_init f ∷ cs) = f ∷ inits cs
  inits (call_get_ref ∷ cs) = inits cs

  -- What memory looks like after these calls of `init`.
  abbrev IsAfter : List (Outcome T) → InitAssert T → Type 0
  IsAfter [] s = s ≡ new
  IsAfter (returned v ∷ []) s = s ≡ record { state = init_state; cell = some v }
  IsAfter _ s = s.state ≡ in_progress_state

  after_init-IsAfter :
      (f : Outcome T) (os : List (Outcome T)) (s : InitAssert T)
      → IsAfter os s
      → IsAfter (f ∷ os) (after (call_init f) s)
  unfolding after new
  after_init-IsAfter f os s h = ground arith

  after_get_ref-IsAfter :
      (os : List (Outcome T)) (s : InitAssert T) → IsAfter os s → IsAfter os (after call_get_ref s)
  unfolding after new
  after_get_ref-IsAfter os s h = ground arith

  after_all-IsAfter : (cs : List (Call T)) → IsAfter (inits cs) (after_all cs)
  unfolding after_all
  after_all-IsAfter [] = refl
  after_all-IsAfter (call_init f ∷ cs) =
      after_init-IsAfter f (inits cs) (after_all cs) (after_all-IsAfter cs)
  after_all-IsAfter (call_get_ref ∷ cs) =
      after_get_ref-IsAfter (inits cs) (after_all cs) (after_all-IsAfter cs)

  outcome :
      (os : List (Outcome T)) (s : InitAssert T) (destroy : M T (Unit {0}))
      → IsAfter os s
      → ((v : T) × (os ≡ returned v ∷ [])
          × (get_ref s ≡ (returned v, s))
          × (drop destroy s ≡ ((destroy v).0, record s { cell = some (destroy v).1 })))
        ⊎ (((v : T) → os ≢ returned v ∷ [])
            × (get_ref s ≡ (panicked, s))
            × (drop destroy s ≡ (returned tt, s)))
  unfolding get_ref drop new
  outcome (returned v ∷ []) s destroy h = inl (v, refl, ground arith, ground arith)
  outcome [] s destroy h = inr ((λ v q. cc), ground arith, ground arith)
  outcome (o ∷ o' ∷ os) s destroy h = inr ((λ v q. cc), ground arith, ground arith)
  outcome (panicked ∷ []) s destroy h = inr ((λ v q. cc), ground arith, ground arith)
  outcome (blocked ∷ []) s destroy h = inr ((λ v q. cc), ground arith, ground arith)
  outcome (undefined ∷ []) s destroy h = inr ((λ v q. cc), ground arith, ground arith)
  outcome (aborted ∷ []) s destroy h = inr ((λ v q. cc), ground arith, ground arith)

  -- After any calls of `init` and `get_ref` on a new object, with closures that return, panic or
  -- never come back: if there was exactly one call of `init`, and its closure returned `v`, then
  -- `get_ref` returns `v` and `drop` runs the destructor on it; otherwise, so after a second `init`
  -- too, `get_ref` panics and `drop` leaves the cell alone. Neither ever reads what was not
  -- written.
  pub get_ref-after_all :
      (cs : List (Call T)) (destroy : M T (Unit {0}))
      → let s = after_all cs in
        ((v : T) × (inits cs ≡ returned v ∷ [])
          × (get_ref s ≡ (returned v, s))
          × (drop destroy s ≡ ((destroy v).0, record s { cell = some (destroy v).1 })))
        ⊎ (((v : T) → inits cs ≢ returned v ∷ [])
            × (get_ref s ≡ (panicked, s))
            × (drop destroy s ≡ (returned tt, s)))
  unfolding get_ref drop
  get_ref-after_all cs destroy = outcome (inits cs) (after_all cs) destroy (after_all-IsAfter cs)
