-- ===== src/RoAfterInit/Tests.antt =====
-- rust/rustlux_mm/src/ro_after_init.rs: the theorems at a concrete cell.
use linux_rustlux.Base.{ℕ, ◌≡◌, refl, true, List, [], ◌∷◌}
use linux_rustlux.RoAfterInit.{
  Outcome, panics, undefined, uninit, Call, call_init, call_seal, call_read, call, calls,
}
use linux_rustlux.RoAfterInit.Sealed.{sealed, sealed_empty, calls-sealed}

abbrev touch_up : List (Call ℕ)
touch_up = call_read ∷ call_init 7 ∷ call_read ∷ []

-- A seal without a value is not noticed by either assertion.
read_unwritten :
    ◌≡◌ {A = Outcome _} (calls true (uninit {T = ℕ}, []) (call_seal ∷ call_read ∷ [])) undefined
unfolding calls call
read_unwritten = refl

calls-sealed_example :
    (calls true (sealed 42, []) touch_up ≡ panics)
    × (◌≡◌ {A = Outcome _} (calls true (sealed_empty {T = ℕ}, []) touch_up) undefined)
calls-sealed_example = calls-sealed 42 [] touch_up
