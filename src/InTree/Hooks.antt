-- ===== src/InTree/Hooks.antt =====
-- patches/0004-rustlux-splice-guard.patch, 0006-rustlux-perf-hook.patch and
-- 0007-rustlux-tiocsti-hook.patch: the places in the kernel that ask the checks, and what they do
-- in a kernel that is built without Rust.
use linux_rustlux.Base.{
  ℕ, bit_and, bit_or, Bool, not, ◌&&◌, ltb, ◌==◌, if◌then◌else◌, ◌≡◌, Option, none, some, ℤ, pos,
  negsuc,
}
use linux_rustlux.Bits.Digit.{digit}
use linux_rustlux.InTree.{check_splice_write, perf_event_allowed, tiocsti_allowed}

-- `struct inode`, as far as it is read.
pub record Inode : Type 0 where
  pub i_mode : ℕ
  pub i_flags : ℕ

-- The kernel's own masks and functions.
pub record Vfs : Type 0 where
  pub mode_isuid : ℕ
  pub mode_isgid : ℕ
  pub is_immutable : Inode → Bool
  pub is_rdonly : Inode → Bool

-- S_ISUID, S_ISGID, and IS_IMMUTABLE, which tests S_IMMUTABLE, 1 << 3.
pub record IsVfs (v : Vfs) : Type 0 where
  pub isuid : v.mode_isuid ≡ 0o4000
  pub isgid : v.mode_isgid ≡ 0o2000
  pub immutable : (inode : Inode) → v.is_immutable inode ≡ (digit inode.i_flags 3 == 1)

unfoldable pub check_splice_perm : Vfs → Inode → ℤ
check_splice_perm v inode =
    check_splice_write inode.i_mode inode.i_flags (if v.is_rdonly inode then 1 else 0)

unfoldable pub fallback_splice_perm : Vfs → Inode → ℤ
fallback_splice_perm v inode =
    if not (bit_and inode.i_mode (bit_or v.mode_isuid v.mode_isgid) == 0)
    then negsuc 0
    else if v.is_immutable inode
    then negsuc 0
    else if v.is_rdonly inode
    then negsuc 29
    else pos 0

-- A call returns an error at once, or goes on into the kernel's own code.
pub data Hook : Type 0 where
  fails : ℤ → Hook
  proceeds : Hook

-- `if (ret < 0) return ret;`
abbrev pub unless_negative : ℤ → Hook
unless_negative (pos ret) = proceeds
unless_negative (negsuc ret) = fails (negsuc ret)

-- do_splice_from up to the test of `splice_write`; the file may have no inode.
unfoldable pub do_splice_from : (Inode → ℤ) → Option Inode → Hook
do_splice_from check none = proceeds
do_splice_from check (some inode) = unless_negative (check inode)

-- perf_allow_kernel up to security_perf_event_open; -13 is -EACCES.
unfoldable pub perf_allow_kernel : ℕ → ℤ → Hook
perf_allow_kernel cap_eff paranoid =
    if perf_event_allowed cap_eff paranoid == 0 then fails (negsuc 12) else proceeds

-- `sysctl_perf_event_paranoid > 1 && !perfmon_capable()`
unfoldable pub fallback_perf_allow_kernel : Bool → ℤ → Hook
fallback_perf_allow_kernel perfmon_capable (pos paranoid) =
    if ltb 1 paranoid && not perfmon_capable then fails (negsuc 12) else proceeds
fallback_perf_allow_kernel perfmon_capable (negsuc n) = proceeds

-- tiocsti up to the kernel's own check; the two terminals are given by their addresses.
unfoldable pub tiocsti : ℕ → ℕ → ℕ → Hook
tiocsti cap_eff signal_tty tty =
    let same_tty = if signal_tty == tty then 1 else 0 in
    if tiocsti_allowed cap_eff same_tty == 0 then fails (negsuc 0) else proceeds
