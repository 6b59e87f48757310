-- ===== src/Effect/Returned.antt =====
-- What a call that returned went through.
use pinned_sync.Base.{◌≡◌, refl, arith}
use pinned_sync.Effect.{
  Outcome, returned, panicked, blocked, undefined, aborted, M, ◌>>=◌, on_unwind,
}

module _ {S A B : Type 0} where
  after_bind :
      (o : Outcome A × S) (k : A → M S B) (m : M S A) (s : S) (b : B) (t : S)
      → m s ≡ o
      → (m >>= k) s ≡ (returned b, t)
      → (a : A) × (u : S) × (m s ≡ (returned a, u)) × (k a u ≡ (returned b, t))
  after_bind (returned a, u) k m s b t e h = (a, u, e, ground arith)
  after_bind (panicked, u) k m s b t e h = absurd (ground arith)
  after_bind (blocked, u) k m s b t e h = absurd (ground arith)
  after_bind (undefined, u) k m s b t e h = absurd (ground arith)
  after_bind (aborted, u) k m s b t e h = absurd (ground arith)

  -- A sequence of two calls returns only if both do.
  pub bind_returned :
      (m : M S A) (k : A → M S B) (s : S) (b : B) (t : S)
      → (m >>= k) s ≡ (returned b, t)
      → (a : A) × (u : S) × (m s ≡ (returned a, u)) × (k a u ≡ (returned b, t))
  bind_returned m k s b t h = after_bind (m s) k m s b t refl h

module _ {S A : Type 0} where
  -- A destructor that runs only in unwinding does not run in a call that returns.
  after_unwind :
      (o : Outcome A × S) (drop : M S (Unit {0})) (m : M S A) (s : S) (a : A) (t : S)
      → m s ≡ o
      → on_unwind drop m s ≡ (returned a, t)
      → m s ≡ (returned a, t)
  after_unwind o drop m s a t e h = ground arith

  pub unwind_returned :
      (drop : M S (Unit {0})) (m : M S A) (s : S) (a : A) (t : S)
      → on_unwind drop m s ≡ (returned a, t)
      → m s ≡ (returned a, t)
  unwind_returned drop m s a t h = after_unwind (m s) drop m s a t refl h
