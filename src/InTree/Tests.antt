-- ===== src/InTree/Tests.antt =====
-- patches/0005-rustlux-kernel-module.patch: the theorems at concrete words, inodes and capabilities.
use linux_rustlux.Base.{ℕ, Bool, false, some, ◌≡◌, ◌⊎◌, ◌↔◌, ◌==◌, refl, pos, negsuc}
use linux_rustlux.Bits.Digit.{digit}
use linux_rustlux.MemSentinel
use linux_rustlux.InTree.{check_splice_write, memsentinel_on_error}
use linux_rustlux.InTree.Hooks.{
  Inode, Vfs, IsVfs, check_splice_perm, fallback_splice_perm, fails, proceeds, do_splice_from,
  perf_allow_kernel, tiocsti,
}
use linux_rustlux.InTree.Guarded.{splice_perm-eq_iff, hooks-proceed_iff, IsPerfAllowed}
use linux_rustlux.InTree.Mirrors.{as_windows, memsentinel-same}

-- The third error of a window, with the threshold 3.
window : MemSentinel.MemSentinel
window = record { window_start_ms = 1000; window_count = 2 }

third_error :
    memsentinel_on_error (as_windows window) 1500 0 3
    ≡ (record { start_ms = 1000; count = 3 }, pos 1)
unfolding window memsentinel_on_error
third_error = refl

memsentinel-same_example :
    let twin = MemSentinel.memsentinel_on_error window 1500 0 3 in
    memsentinel_on_error (as_windows window) 1500 0 3 ≡ (as_windows twin.0, twin.1)
memsentinel-same_example = memsentinel-same window 1500 0 3

splice_tests :
    (check_splice_write 0o644 0 0 ≡ pos 0)
    × (check_splice_write 0o4755 0 0 ≡ negsuc 0)
    × (check_splice_write 0o644 0x10 1 ≡ negsuc 0)
    × (check_splice_write 0o644 0 1 ≡ negsuc 29)
unfolding check_splice_write
splice_tests = (refl, refl, refl, refl)

abbrev vfs : Vfs
vfs = record {
  mode_isuid = 0o4000;
  mode_isgid = 0o2000;
  is_immutable = λ inode. digit inode.i_flags 3 == 1;
  is_rdonly = λ inode. false;
}

vfs-IsVfs : IsVfs vfs
vfs-IsVfs = record { isuid = refl; isgid = refl; immutable = λ inode. refl }

-- An inode that is S_IMMUTABLE: the guard in Rust lets a splice through, the one in C does not.
abbrev immutable_inode : Inode
immutable_inode = record { i_mode = 0o644; i_flags = 0x8 }

immutable_let_through :
    (do_splice_from (check_splice_perm vfs) (some immutable_inode) ≡ proceeds)
    × (do_splice_from (fallback_splice_perm vfs) (some immutable_inode) ≡ fails (negsuc 0))
unfolding do_splice_from check_splice_perm fallback_splice_perm check_splice_write
immutable_let_through = (refl, refl)

splice_perm-eq_iff_example :
    (check_splice_perm vfs immutable_inode ≡ fallback_splice_perm vfs immutable_inode)
    ↔ ((digit 0o644 11 ≡ 1) ⊎ (digit 0o644 10 ≡ 1) ⊎ (digit 0x8 4 ≡ digit 0x8 3))
splice_perm-eq_iff_example = splice_perm-eq_iff vfs immutable_inode vfs-IsVfs

-- An immutable file, CAP_PERFMON at level 2, and another terminal without CAP_SYS_ADMIN.
hooks-proceed_iff_example :
    ((do_splice_from (check_splice_perm vfs) (some immutable_inode) ≡ proceeds) ↔ (
      (digit 0o644 11 ≡ 0)
      × (digit 0o644 10 ≡ 0)
      × (digit 0x8 4 ≡ 0)
      × (◌≡◌ {A = Bool} false false)))
    × ((perf_allow_kernel 0x40_0000_0000 (pos 2) ≡ proceeds) ↔ IsPerfAllowed 0x40_0000_0000 (pos 2))
    × ((tiocsti 0x40_0000_0000 100 200 ≡ proceeds)
        ↔ ((◌≡◌ {A = ℕ} 100 200) ⊎ (digit 0x40_0000_0000 21 ≡ 1)))
hooks-proceed_iff_example = hooks-proceed_iff vfs immutable_inode 0x40_0000_0000 100 200 (pos 2)
