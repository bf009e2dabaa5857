-- ===== src/Capabilities/UnitTests.antt =====
-- rust/rustlux_security/src/capabilities.rs: the unit tests of that file. A test is what its
-- assertions check.
use linux_rustlux.Base.{◌≡◌, refl, true, false, pos}
use linux_rustlux.Capabilities.{
  sys_admin, perf_mon, empty, full, has, with_cap, without_cap, perf_allowed, tiocsti_allowed,
}

abbrev CapsetHas : Type 0
CapsetHas =
    let caps = with_cap empty sys_admin in (has caps sys_admin ≡ true) × (has caps perf_mon ≡ false)

abbrev CapsetWithout : Type 0
CapsetWithout =
    let caps = without_cap full sys_admin in
    (has caps sys_admin ≡ false) × (has caps perf_mon ≡ true)

abbrev PerfParanoid3RequiresCap : Type 0
PerfParanoid3RequiresCap =
    (perf_allowed empty (pos 3) ≡ false) × (perf_allowed (with_cap empty perf_mon) (pos 3) ≡ true)

abbrev PerfParanoid0AllowsAll : Type 0
PerfParanoid0AllowsAll = perf_allowed empty (pos 0) ≡ true

abbrev TiocstiRestrictRequiresSysadmin : Type 0
TiocstiRestrictRequiresSysadmin =
    (tiocsti_allowed empty true true ≡ false)
    × (tiocsti_allowed (with_cap empty sys_admin) true true ≡ true)

abbrev TiocstiSameTtyNoRestrict : Type 0
TiocstiSameTtyNoRestrict = tiocsti_allowed empty false true ≡ true

unit_tests :
    CapsetHas × CapsetWithout × PerfParanoid3RequiresCap × PerfParanoid0AllowsAll
    × TiocstiRestrictRequiresSysadmin × TiocstiSameTtyNoRestrict
unfolding has with_cap without_cap perf_allowed tiocsti_allowed
unit_tests = ((refl, refl), (refl, refl), (refl, refl), refl, (refl, refl), refl)
