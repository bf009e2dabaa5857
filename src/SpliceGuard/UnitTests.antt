-- ===== src/SpliceGuard/UnitTests.antt =====
-- rust/rustlux_mm/src/splice_guard.rs: the unit tests of that file. A test is what its assertion
-- checks.
use linux_rustlux.Base.{◌≡◌, refl, pos}
use linux_rustlux.SpliceGuard.{eperm, erofs, check_splice_write, check_xfrm_splice_write}

abbrev NormalFileSpliceAllowed : Type 0
NormalFileSpliceAllowed = check_splice_write 0o644 0 0 ≡ pos 0

abbrev SuidFileSpliceDenied : Type 0
SuidFileSpliceDenied = check_splice_write 0o4755 0 0 ≡ eperm

abbrev SgidFileSpliceDenied : Type 0
SgidFileSpliceDenied = check_splice_write 0o2755 0 0 ≡ eperm

abbrev ReadonlyFsSpliceDenied : Type 0
ReadonlyFsSpliceDenied = check_splice_write 0o644 0 1 ≡ erofs

abbrev ImmutableFileSpliceDenied : Type 0
ImmutableFileSpliceDenied = check_splice_write 0o644 0x10 0 ≡ eperm

abbrev AppendOnlySpliceDenied : Type 0
AppendOnlySpliceDenied = check_splice_write 0o644 0x20 0 ≡ eperm

abbrev CopyFailScenarioBlocked : Type 0
CopyFailScenarioBlocked = check_splice_write 0o104755 0 0 ≡ eperm

abbrev DirtyFragScenarioBlocked : Type 0
DirtyFragScenarioBlocked = check_xfrm_splice_write 0o104755 0 0 ≡ eperm

unit_tests :
    NormalFileSpliceAllowed × SuidFileSpliceDenied × SgidFileSpliceDenied × ReadonlyFsSpliceDenied
    × ImmutableFileSpliceDenied × AppendOnlySpliceDenied × CopyFailScenarioBlocked
    × DirtyFragScenarioBlocked
unfolding check_xfrm_splice_write
unit_tests = (refl, refl, refl, refl, refl, refl, refl, refl)
