-- ===== src/InTree/Guarded.antt =====
-- patches/0004-rustlux-splice-guard.patch, 0006-rustlux-perf-hook.patch and
-- 0007-rustlux-tiocsti-hook.patch: what the hooks let through.
use linux_rustlux.Base.{
  ℕ, zero, suc, Bool, false, ◌||◌, ◌==◌, if◌then◌else◌, ◌<◌, ◌≡◌, ◌↔◌, ◌⊎◌, refl, some, ℤ, pos,
  negsuc, arith,
}
use linux_rustlux.Bits.Digit.{digit}
use linux_rustlux.InTree.{perf_event_allowed}
use linux_rustlux.InTree.Decisions.{
  set_id_mask, in_tree_lem, perf_event_allowed_lem, tiocsti_allowed_lem,
}
use linux_rustlux.InTree.Hooks.{
  Inode, Vfs, IsVfs, check_splice_perm, fallback_splice_perm, proceeds, do_splice_from,
  perf_allow_kernel, fallback_perf_allow_kernel, tiocsti,
}

-- With the guard in Rust, a splice into a file with an inode goes on exactly when the inode is
-- neither set-user-ID nor set-group-ID, bit 4 of its flags is clear and its file system is
-- writable.
do_splice_from-proceeds_iff :
    (v : Vfs) (inode : Inode)
    → (do_splice_from (check_splice_perm v) (some inode) ≡ proceeds) ↔ (
        (digit inode.i_mode 11 ≡ 0)
        × (digit inode.i_mode 10 ≡ 0)
        × (digit inode.i_flags 4 ≡ 0)
        × (v.is_rdonly inode ≡ false))
unfolding do_splice_from check_splice_perm
do_splice_from-proceeds_iff v inode =
    let rdonly = if v.is_rdonly inode then 1 else 0 in
    let result = in_tree_lem inode.i_mode inode.i_flags rdonly in
    (λ h. ground (arith, result), λ h. ground (arith, result))

-- With the masks of the kernel (IsVfs), the splice guard in Rust and the one in C answer the
-- same for an inode exactly when it is set-user-ID or set-group-ID, or bits 3 and 4 of its flags
-- are equal.
pub splice_perm-eq_iff :
    (v : Vfs) (inode : Inode)
    → IsVfs v
    → (check_splice_perm v inode ≡ fallback_splice_perm v inode) ↔ (
        (digit inode.i_mode 11 ≡ 1)
        ⊎ (digit inode.i_mode 10 ≡ 1)
        ⊎ (digit inode.i_flags 4 ≡ digit inode.i_flags 3))
unfolding check_splice_perm fallback_splice_perm
splice_perm-eq_iff v inode laws =
    let rdonly = if v.is_rdonly inode then 1 else 0 in
    let result = in_tree_lem inode.i_mode inode.i_flags rdonly in
    rw (laws.isuid, laws.isgid, laws.immutable inode)
      (
        λ h. ground (arith, result, set_id_mask inode.i_mode),
        λ h. ground (arith, result, set_id_mask inode.i_mode),
      )

-- Where the kernel with Rust lets a task use perf_event on the kernel, the kernel without Rust
-- does too, if perfmon_capable tells whether the task has CAP_PERFMON or CAP_SYS_ADMIN.
perf_allow_kernel-stricter :
    (cap_eff : ℕ) (perfmon_capable : Bool) (paranoid : ℤ)
    → perfmon_capable ≡ (digit cap_eff 38 == 1 || digit cap_eff 21 == 1)
    → perf_allow_kernel cap_eff paranoid ≡ proceeds
    → fallback_perf_allow_kernel perfmon_capable paranoid ≡ proceeds
unfolding perf_allow_kernel fallback_perf_allow_kernel
perf_allow_kernel-stricter cap_eff perfmon_capable (pos zero) capable h = refl
perf_allow_kernel-stricter cap_eff perfmon_capable (pos (suc level)) capable h =
    ground (arith, (perf_event_allowed_lem cap_eff level).0)
perf_allow_kernel-stricter cap_eff perfmon_capable (negsuc n) capable h = refl

-- TIOCSTI is let through to the check of the kernel exactly when the terminal is the own one or
-- the task has CAP_SYS_ADMIN.
tiocsti-proceeds_iff :
    (cap_eff signal_tty tty : ℕ)
    → (tiocsti cap_eff signal_tty tty ≡ proceeds) ↔ ((signal_tty ≡ tty) ⊎ (digit cap_eff 21 ≡ 1))
unfolding tiocsti
tiocsti-proceeds_iff cap_eff signal_tty tty =
    let same_tty = if signal_tty == tty then 1 else 0 in
    let result = (tiocsti_allowed_lem cap_eff same_tty).0 in
    (λ h. ground (arith, result), λ h. ground (arith, result))

-- At a level that is not positive everybody is, at 1 and 2 who has CAP_PERFMON or CAP_SYS_ADMIN,
-- and above who has CAP_SYS_ADMIN.
abbrev pub IsPerfAllowed : ℕ → ℤ → Type 0
IsPerfAllowed cap_eff (negsuc n) = Unit
IsPerfAllowed cap_eff (pos zero) = Unit
IsPerfAllowed cap_eff (pos (suc level)) =
    (digit cap_eff 21 ≡ 1) ⊎ ((level < 2) × (digit cap_eff 38 ≡ 1))

perf_allow_kernel-proceeds_iff :
    (cap_eff : ℕ) (paranoid : ℤ)
    → (perf_allow_kernel cap_eff paranoid ≡ proceeds) ↔ IsPerfAllowed cap_eff paranoid
unfolding perf_allow_kernel perf_event_allowed
perf_allow_kernel-proceeds_iff cap_eff (negsuc n) = (λ h. tt, λ h. refl)
perf_allow_kernel-proceeds_iff cap_eff (pos zero) = (λ h. tt, λ h. refl)
perf_allow_kernel-proceeds_iff cap_eff (pos (suc level)) =
    let result = (perf_event_allowed_lem cap_eff level).0 in
    (λ h. ground (arith, result), λ h. ground (arith, result))

-- With the checks in Rust, a splice into a file with an inode goes on exactly when the inode is
-- neither set-user-ID nor set-group-ID, bit 4 of its flags is clear and its file system is
-- writable; perf_event on the kernel goes on always at levels up to 0, at levels 1 and 2 exactly
-- with CAP_PERFMON or CAP_SYS_ADMIN, and above exactly with CAP_SYS_ADMIN; and TIOCSTI goes on
-- exactly on the own terminal or with CAP_SYS_ADMIN.
pub hooks-proceed_iff :
    (v : Vfs) (inode : Inode) (cap_eff signal_tty tty : ℕ) (paranoid : ℤ)
    → ((do_splice_from (check_splice_perm v) (some inode) ≡ proceeds) ↔ (
        (digit inode.i_mode 11 ≡ 0)
        × (digit inode.i_mode 10 ≡ 0)
        × (digit inode.i_flags 4 ≡ 0)
        × (v.is_rdonly inode ≡ false)))
      × ((perf_allow_kernel cap_eff paranoid ≡ proceeds) ↔ IsPerfAllowed cap_eff paranoid)
      × ((tiocsti cap_eff signal_tty tty ≡ proceeds)
          ↔ ((signal_tty ≡ tty) ⊎ (digit cap_eff 21 ≡ 1)))
hooks-proceed_iff v inode cap_eff signal_tty tty paranoid = (
  do_splice_from-proceeds_iff v inode,
  perf_allow_kernel-proceeds_iff cap_eff paranoid,
  tiocsti-proceeds_iff cap_eff signal_tty tty,
)
