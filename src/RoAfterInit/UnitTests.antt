-- ===== src/RoAfterInit/UnitTests.antt =====
-- rust/rustlux_mm/src/ro_after_init.rs: the unit tests of that file, in a build with debug
-- assertions. A test is that its calls return, with the value that its assertion expects.
use linux_rustlux.Base.{ℕ, ◌^◌, ◌-◌, ◌≡◌, refl, true}
use linux_rustlux.RoAfterInit.{
  RoAfterInit, returns, ◌>>=◌, uninit, new, init, seal, assume_init, read,
}

abbrev BasicInitAndRead : Type 0
BasicInitAndRead = (do x ← init true (uninit {T = ℕ}) 42; read true (seal x)) ≡ returns 42

-- `!0u64`
abbrev ConstNew : Type 0
ConstNew =
    let mask : RoAfterInit ℕ = new (2 ^ 64 - 1) in read true (seal mask) ≡ returns (2 ^ 64 - 1)

unit_tests : BasicInitAndRead × ConstNew
unfolding init seal read assume_init
unit_tests = (refl, refl)
