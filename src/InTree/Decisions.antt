-- ===== src/InTree/Decisions.antt =====
-- patches/0005-rustlux-kernel-module.patch: the checks that the kernel is built with, against those
-- of the crates rust/rustlux_mm and rust/rustlux_security.
use linux_rustlux.Base.{
  ℕ, suc, ◌*◌, ◌/◌, ◌%◌, ◌^◌, ◌<◌, max, bit_and, ◌≡◌, ◌⊎◌, ◌↔◌, ◌||◌, ◌==◌, if◌then◌else◌, ltb, pos,
  negsuc, arith,
}
use linux_rustlux.Bits.And.{and-one, and-mask}
use linux_rustlux.Bits.Digit.{digit, and-two_pow, and-shifted}
use linux_rustlux.SpliceGuard
use linux_rustlux.SpliceGuard.Decision.{check_splice_write_lem}
use linux_rustlux.Hardening
use linux_rustlux.Hardening.{ffi_tiocsti_allowed}
use linux_rustlux.Hardening.Decisions.{ffi_checks}
use linux_rustlux.InTree.{check_splice_write, capable, perf_event_allowed, tiocsti_allowed}

-- The two set-ID bits are tested by one mask.
pub set_id_mask : (i_mode : ℕ) → bit_and i_mode 0o6000 ≡ i_mode / 2 ^ 10 % 4 * 2 ^ 10
set_id_mask i_mode = omega (arith, and-shifted 10 i_mode 3, and-mask 2 (i_mode / 2 ^ 10))

pub in_tree_lem :
    (i_mode i_flags sb_readonly : ℕ)
    → check_splice_write i_mode i_flags sb_readonly ≡ (
        if digit i_mode 11 == 1 || digit i_mode 10 == 1
        then negsuc 0
        else if digit i_flags 4 == 1
        then negsuc 0
        else if sb_readonly == 0
        then pos 0
        else negsuc 29)
unfolding check_splice_write
in_tree_lem i_mode i_flags sb_readonly = ground (arith, set_id_mask i_mode, and-two_pow 4 i_flags)

-- The in-tree check and that of the crate give the same result exactly when the inode is
-- set-user-ID or set-group-ID, or bit 4 of its flags is set and the file system writable, or
-- bit 4 is clear and bit 5 clear or the file system read-only.
check_splice_write-eq_iff :
    (i_mode i_flags sb_readonly : ℕ)
    → (check_splice_write i_mode i_flags sb_readonly
        ≡ SpliceGuard.check_splice_write i_mode i_flags sb_readonly)
      ↔ ((digit i_mode 11 ≡ 1)
          ⊎ (digit i_mode 10 ≡ 1)
          ⊎ ((digit i_flags 4 ≡ 1) × (sb_readonly ≡ 0))
          ⊎ ((digit i_flags 4 ≡ 0) × (digit i_flags 5 ≡ 0))
          ⊎ ((digit i_flags 4 ≡ 0) × (0 < sb_readonly)))
check_splice_write-eq_iff i_mode i_flags sb_readonly = (
  λ h. ground (
    arith,
    in_tree_lem i_mode i_flags sb_readonly,
    check_splice_write_lem i_mode i_flags sb_readonly,
  ),
  λ h. ground (
    arith,
    in_tree_lem i_mode i_flags sb_readonly,
    check_splice_write_lem i_mode i_flags sb_readonly,
  ),
)

capable-digit : (caps cap : ℕ) → capable caps cap ≡ (digit caps cap == 1)
unfolding capable
capable-digit caps cap = ground (arith, and-one (caps / 2 ^ cap))

-- The in-tree check allows levels 1 and 2 to CAP_PERFMON or CAP_SYS_ADMIN, and the levels above
-- to CAP_SYS_ADMIN alone; that of the crate allows each of them to CAP_PERFMON.
pub perf_event_allowed_lem :
    (caps level : ℕ)
    → (perf_event_allowed caps (pos (suc level))
        ≡ (if ltb level 2 then max (digit caps 38) (digit caps 21) else digit caps 21))
      × (Hardening.perf_event_allowed caps (pos (suc level)) ≡ digit caps 38)
unfolding perf_event_allowed
perf_event_allowed_lem caps level =
    (ground (arith, capable-digit caps 38, capable-digit caps 21), (ffi_checks caps level 0).0)

-- The in-tree check allows the own terminal, and others to CAP_SYS_ADMIN; that of the crate
-- asks for CAP_SYS_ADMIN on all.
pub tiocsti_allowed_lem :
    (caps same_tty : ℕ)
    → (tiocsti_allowed caps same_tty ≡ (if same_tty == 0 then digit caps 21 else 1))
      × (ffi_tiocsti_allowed caps same_tty ≡ digit caps 21)
unfolding tiocsti_allowed
tiocsti_allowed_lem caps same_tty =
    (ground (arith, capable-digit caps 21), (ffi_checks caps 0 same_tty).1)
