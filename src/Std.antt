-- ===== src/Std.antt =====
-- The types of the Rust standard library that lock methods return, and the thread that calls them.
pub mod Sync
use pinned_sync.Base.{ℕ, Bool}
use pinned_sync.Effect.{M, pure, panic}

pub data Result {ℓ κ} (A : Type ℓ) (E : Type κ) : Type (ℓ ⊔ κ) where
  ok : A → Result A E
  err : E → Result A E

-- `Result::unwrap`
abbrev pub unwrap : {S A E : Type 0} → Result A E → M S A
unwrap (ok a) = pure a
unwrap (err _) = panic

-- `std::sync::PoisonError`, whose `into_inner` gives the guard back.
pub record PoisonError {ℓ} (A : Type ℓ) : Type ℓ where
  pub guard : A

pub data TryLockError {ℓ} (A : Type ℓ) : Type ℓ where
  poisoned : PoisonError A → TryLockError A
  would_block : TryLockError A

module _ {ℓ} where
  abbrev pub LockResult : Type ℓ → Type ℓ
  LockResult A = Result A (PoisonError A)

  abbrev pub TryLockResult : Type ℓ → Type ℓ
  TryLockResult A = Result A (TryLockError A)

  abbrev pub poison_error : {A : Type ℓ} → A → PoisonError A
  poison_error a = record { guard = a }

  -- What a caller holds after `unwrap_or_else(PoisonError::into_inner)`.
  abbrev pub inner_of : {A : Type ℓ} → LockResult A → A
  inner_of (ok a) = a
  inner_of (err e) = e.guard

  abbrev pub is_err : {A : Type ℓ} → LockResult A → Bool
  is_err (ok _) = Bool.false
  is_err (err _) = Bool.true

  -- `Ok(result?)` at `TryLockResult`, with `From<PoisonError>` for `TryLockError`.
  abbrev pub try_result : {A : Type ℓ} → LockResult A → TryLockResult A
  try_result (ok a) = ok a
  try_result (err e) = err (poisoned e)

-- The calling thread: its identity, and what `std::thread::panicking()` answers in it.
pub record Thread : Type 0 where
  pub id : ℕ
  pub panicking : Bool
