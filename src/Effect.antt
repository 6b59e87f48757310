-- ===== src/Effect.antt =====
-- What a call of a Rust function does: it changes the state that it was given and ends in one of
-- five ways. A call that blocks is one that a thread has not got past in this state.
pub mod Returned
use pinned_sync.Base.{Bool, true, false}

pub data Outcome {ℓ} (A : Type ℓ) : Type ℓ where
  returned : A → Outcome A
  panicked : Outcome A
  blocked : Outcome A
  undefined : Outcome A  -- undefined behaviour, such as a read of uninitialised memory
  aborted : Outcome A  -- a panic in a destructor that runs because of a panic

abbrev pub M : Type 0 → Type 0 → Type 0
M S A = S → Outcome A × S

module _ {S A : Type 0} where
  abbrev pub pure : A → M S A
  pure a s = (returned a, s)

  abbrev pub panic : M S A
  panic s = (panicked, s)

  abbrev pub block : M S A
  block s = (blocked, s)

  abbrev pub gets : (S → A) → M S A
  gets f s = (returned (f s), s)

infixl 5 ◌>>=◌ ◌>>◌
abbrev pub ◌>>=◌ : {S A B : Type 0} → M S A → (A → M S B) → M S B
◌>>=◌ m f s =
    let (r, s') = m s in
    elim r [
      | returned a ↦ f a s'
      | panicked ↦ (panicked, s')
      | blocked ↦ (blocked, s')
      | undefined ↦ (undefined, s')
      | aborted ↦ (aborted, s')
    ]

abbrev pub ◌>>◌ : {S B : Type 0} → M S (Unit {0}) → M S B → M S B
m >> k = m >>= λ _. k

abbrev pub modify : {S : Type 0} → (S → S) → M S (Unit {0})
modify f s = (returned tt, f s)

-- `assert!`; `debug_assert!` is one that the build may leave out.
abbrev pub assert : {S : Type 0} → Bool → M S (Unit {0})
assert true s = (returned tt, s)
assert false s = (panicked, s)

abbrev pub debug_assert : {S : Type 0} → (debug : Bool) → Bool → M S (Unit {0})
debug_assert true b = assert b
debug_assert false b = pure tt

-- A call on a part of the state, such as a field of an object.
abbrev pub on : {S R A : Type 0} → (S → R) → (R → S → S) → M R A → M S A
on get put m s = let (r, x) = m (get s) in (r, put x s)

-- A scope that ends with a destructor, which runs on the normal way out and in unwinding.
abbrev pub scoped : {S A : Type 0} → M S (Unit {0}) → M S A → M S A
scoped drop m s =
    let (r, s') = m s in
    elim r [
      | returned a ↦ (drop >>= λ _. pure a) s'
      | panicked ↦
          let (q, s'') = drop s' in
          elim q [
            | returned _ ↦ (panicked, s'')
            | panicked ↦ (aborted, s'')
            | blocked ↦ (blocked, s'')
            | undefined ↦ (undefined, s'')
            | aborted ↦ (aborted, s'')
          ]
      | blocked ↦ (blocked, s')
      | undefined ↦ (undefined, s')
      | aborted ↦ (aborted, s')
    ]

-- A call that owns a value: if it panics, the destructor of the value runs in unwinding.
abbrev pub on_unwind : {S A : Type 0} → M S (Unit {0}) → M S A → M S A
on_unwind drop m s =
    let (r, s') = m s in
    elim r [
      | returned a ↦ (returned a, s')
      | panicked ↦
          let (q, s'') = drop s' in
          elim q [
            | returned _ ↦ (panicked, s'')
            | panicked ↦ (aborted, s'')
            | blocked ↦ (blocked, s'')
            | undefined ↦ (undefined, s'')
            | aborted ↦ (aborted, s'')
          ]
      | blocked ↦ (blocked, s')
      | undefined ↦ (undefined, s')
      | aborted ↦ (aborted, s')
    ]

-- A scope with a local variable beside the state.
abbrev pub with_local : {L S A : Type 0} → L → M (L × S) A → M S A
with_local l m s = let (r, ls) = m (l, s) in (r, ls.1)
