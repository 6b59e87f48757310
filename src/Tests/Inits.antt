-- ===== src/Tests/Inits.antt =====
-- `InitAssert` on small runs (src/sys_common/init_assert.rs).
use pinned_sync.Base.{ℕ, ◌≡◌, ◌≢◌, true, false, some, ◌⊎◌, List, [], ◌∷◌}
use pinned_sync.Effect.{returned, panicked, pure}
use pinned_sync.Std.{Thread}
use pinned_sync.SysCommon.InitAssert
use pinned_sync.SysCommon.InitAssert.{InitAssert, uninit_state, in_progress_state, init_state}
use pinned_sync.SysCommon.InitAssert.Laws as Laws
use pinned_sync.SysCommon.InitAssert.Laws.{Call, call_init, call_get_ref, inits, get_ref-after_all}

abbrev pub alice : Thread
alice = record { id = 0; panicking = false }

abbrev pub bob : Thread
bob = record { id = 1; panicking = false }

abbrev pub alice_panics : Thread
alice_panics = record { id = 0; panicking = true }

-- Two calls of `init`, then `get_ref`.
abbrev twice : List (Call ℕ)
twice = call_get_ref ∷ call_init (returned 8) ∷ call_init (returned 7) ∷ []

get_ref-after_all_example :
    let s = Laws.after_all twice in
    ((v : ℕ) × (inits twice ≡ returned v ∷ [])
      × (InitAssert.get_ref s ≡ (returned v, s))
      × (InitAssert.drop (pure tt) s ≡ (returned tt, record s { cell = some v })))
    ⊎ (((v : ℕ) → inits twice ≢ returned v ∷ [])
        × (InitAssert.get_ref s ≡ (panicked, s))
        × (InitAssert.drop (pure tt) s ≡ (returned tt, s)))
get_ref-after_all_example = get_ref-after_all twice (pure tt)
