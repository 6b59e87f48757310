-- ===== src/SysCommon/InitAssert.antt =====
-- src/sys_common/init_assert.rs: a cell that is initialized once, and checks that it was.
pub mod Laws
pub mod Threads
pub mod Safety
pub mod Views
pub mod Published
use pinned_sync.Base.{
  ℕ, Bool, true, false, Option, none, some, ℤ, pos, negsuc, ◌==ℤ◌, if◌then◌else◌,
}
use pinned_sync.Effect.{
  Outcome, returned, undefined, M, pure, gets, modify, assert, on, ◌>>=◌, ◌>>◌,
}

abbrev pub uninit_state : ℤ
uninit_state = pos 0

abbrev pub in_progress_state : ℤ
in_progress_state = negsuc 0

abbrev pub init_state : ℤ
init_state = pos 1

-- `cell` is the field `data`: `none` is memory that nobody has written.
pub record InitAssert (T : Type 0) : Type 0 where
  pub state : ℤ
  pub cell : Option T

module _ {T : Type 0} where
  unfoldable pub new : InitAssert T
  new = record { state = uninit_state; cell = none }

  -- `AtomicIsize::swap`
  abbrev pub swap : ℤ → M (InitAssert T) ℤ
  swap v s = (returned s.state, record s { state = v })

  abbrev pub store : ℤ → M (InitAssert T) (Unit {0})
  store v = modify (λ s. record s { state = v })

  -- `init_with` before and after it runs the closure.
  abbrev pub begin_init : M (InitAssert T) (Unit {0})
  begin_init = do old ← swap in_progress_state; assert (old ==ℤ uninit_state)

  abbrev pub finish_init : M (InitAssert T) (Unit {0})
  finish_init = store init_state

  -- The closure `f` gets a pointer to the cell.
  unfoldable pub init_with : M (Option T) (Unit {0}) → M (InitAssert T) (Unit {0})
  init_with f = do begin_init; on (λ s. s.cell) (λ c s. record s { cell = c }) f; finish_init

  unfoldable pub init : Outcome T → M (InitAssert T) (Unit {0})
  unfolding init_with
  init f = init_with ((λ c. (f, c)) >>= λ v. modify (λ _. some v))

  -- The pointer itself is the cell of this object, so the call returns nothing but that it passed.
  unfoldable pub get : M (InitAssert T) (Unit {0})
  get = do assert ((← gets (λ s. s.state)) ==ℤ init_state)

  -- A read through the pointer.
  abbrev read_cell : M (InitAssert T) T
  read_cell s = elim s.cell [ none ↦ (undefined, s) | some v ↦ (returned v, s) ]

  -- A call that works on the object behind the pointer.
  abbrev pub at_cell : {A : Type 0} → M T A → M (InitAssert T) A
  at_cell m s = elim s.cell [
    | none ↦ (undefined, s)
    | some v ↦ let (r, v') = m v in (r, record s { cell = some v' })
  ]

  unfoldable pub get_ref : M (InitAssert T) T
  unfolding get
  get_ref = do assert ((← gets (λ s. s.state)) ==ℤ init_state); get; read_cell

  -- `drop_in_place` is the destructor of `T`.
  unfoldable pub drop : M T (Unit {0}) → M (InitAssert T) (Unit {0})
  drop drop_in_place = do
    state ← gets (λ s. s.state)
    if state ==ℤ init_state then at_cell drop_in_place else pure tt
