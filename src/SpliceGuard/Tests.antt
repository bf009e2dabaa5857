-- ===== src/SpliceGuard/Tests.antt =====
-- rust/rustlux_mm/src/splice_guard.rs: the theorems at concrete inodes.
use linux_rustlux.Base.{◌≡◌, ◌||◌, ◌==◌, if◌then◌else◌, pos}
use linux_rustlux.Bits.Digit.{digit}
use linux_rustlux.SpliceGuard.{eperm, erofs, check_splice_write}
use linux_rustlux.SpliceGuard.Decision.{check_splice_write_lem}

check_splice_write_lem_example : check_splice_write 0o4755 0 1 ≡ (
    if digit 0o4755 11 == 1 || digit 0o4755 10 == 1
    then eperm
    else if 1 == 0
    then (if digit 0 4 == 1 || digit 0 5 == 1 then eperm else pos 0)
    else erofs)
check_splice_write_lem_example = check_splice_write_lem 0o4755 0 1
