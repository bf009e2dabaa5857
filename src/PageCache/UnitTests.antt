-- ===== src/PageCache/UnitTests.antt =====
-- rust/rustlux_mm/src/page_cache.rs: the unit tests of that file. A test is what its assertions
-- check.
use linux_rustlux.Base.{bit_or, true, false, ◌≡◌, refl, ok, err}
use linux_rustlux.PageCache.{
  suid, sgid, immutable, from_raw, suid_or_sgid, read_only_filesystem, immutable_inode, permit,
  permit_new,
}

abbrev SuidFileDenied : Type 0
SuidFileDenied = permit_new (from_raw suid.bits) false ≡ err suid_or_sgid

abbrev SgidFileDenied : Type 0
SgidFileDenied = permit_new (from_raw sgid.bits) false ≡ err suid_or_sgid

abbrev ReadonlyFsDenied : Type 0
ReadonlyFsDenied = permit_new (from_raw 0) true ≡ err read_only_filesystem

abbrev ImmutableDenied : Type 0
ImmutableDenied = permit_new (from_raw immutable.bits) false ≡ err immutable_inode

abbrev NormalFileAllowed : Type 0
NormalFileAllowed = permit_new (from_raw 0) false ≡ ok permit

abbrev SuidPlusSgidDenied : Type 0
SuidPlusSgidDenied = permit_new (from_raw (bit_or suid.bits sgid.bits)) false ≡ err suid_or_sgid

unit_tests :
    SuidFileDenied × SgidFileDenied × ReadonlyFsDenied × ImmutableDenied × NormalFileAllowed
    × SuidPlusSgidDenied
unfolding permit_new
unit_tests = (refl, refl, refl, refl, refl, refl)
