-- ===== src/SpliceGuard.antt =====
-- rust/rustlux_mm/src/splice_guard.rs: the check that fs/splice.c makes before it writes.
pub mod Decision
mod UnitTests
mod Tests
use linux_rustlux.Base.{
  ℕ, bit_and, bit_or, Bool, not, ◌==◌, if◌then◌else◌, Result, ok, err, ℤ, pos, negsuc,
}
use linux_rustlux.PageCache.{
  InodeFlags, suid, sgid, immutable, append_only, from_raw, PageWriteError, suid_or_sgid,
  read_only_filesystem, immutable_inode, append_only_inode, permission_denied, PageWritePermit,
  permit_new,
}

-- -1, -30 and -13
abbrev pub eperm : ℤ
eperm = negsuc 0

abbrev pub erofs : ℤ
erofs = negsuc 29

abbrev pub eacces : ℤ
eacces = negsuc 12

abbrev pub s_isuid : ℕ
s_isuid = 0o4000

abbrev pub s_isgid : ℕ
s_isgid = 0o2000

-- `if word & mask != 0 { raw |= flag; }`
unfoldable pub raise_flag : ℕ → ℕ → InodeFlags → ℕ → ℕ
raise_flag word mask flag raw = if not (bit_and word mask == 0) then bit_or raw flag.bits else raw

unfoldable pub flags_raw : ℕ → ℕ → ℕ
unfolding raise_flag
flags_raw i_mode i_flags = raise_flag i_flags 0x20 append_only (
    raise_flag i_flags 0x10 immutable
      (raise_flag i_mode s_isgid sgid (raise_flag i_mode s_isuid suid 0)))

abbrev pub errno : Result PageWritePermit PageWriteError → ℤ
errno (ok _) = pos 0
errno (err suid_or_sgid) = eperm
errno (err read_only_filesystem) = erofs
errno (err immutable_inode) = eperm
errno (err append_only_inode) = eperm
errno (err permission_denied) = eacces

unfoldable pub check_splice_write : ℕ → ℕ → ℕ → ℤ
unfolding flags_raw permit_new
check_splice_write i_mode i_flags sb_readonly =
    errno (permit_new (from_raw (flags_raw i_mode i_flags)) (not (sb_readonly == 0)))

unfoldable pub check_alg_splice_write : ℕ → ℕ → ℕ → ℤ
unfolding check_splice_write
check_alg_splice_write i_mode i_flags sb_readonly = check_splice_write i_mode i_flags sb_readonly

unfoldable pub check_xfrm_splice_write : ℕ → ℕ → ℕ → ℤ
unfolding check_splice_write
check_xfrm_splice_write i_mode i_flags sb_readonly = check_splice_write i_mode i_flags sb_readonly
