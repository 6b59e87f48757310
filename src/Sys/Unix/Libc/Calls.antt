-- ===== src/Sys/Unix/Libc/Calls.antt =====
-- A foreign call as a step of a program: on one object, and one that may wait.
use pinned_sync.Base.{ℕ, Option, none, some}
use pinned_sync.Effect.{returned, blocked, M}

abbrev pub call : {X : Type 0} → (X → ℕ × X) → M X ℕ
call f x = let (code, x') = f x in (returned code, x')

abbrev pub call_blocking : {X : Type 0} → (X → Option (ℕ × X)) → M X ℕ
call_blocking f x = elim (f x) [ none ↦ (blocked, x) | some (code, x') ↦ (returned code, x') ]
