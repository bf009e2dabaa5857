-- ===== src/SpliceGuard/Decision.antt =====
-- rust/rustlux_mm/src/splice_guard.rs: what the guard decides, in terms of the inode's own bits.
use native.Mathlib.Nat.{one-le-pow}
use linux_rustlux.Base.{
  ℕ, ◌^◌, ◌<◌, bit_and, ◌≡◌, refl, ◌↔◌, not, ◌||◌, ◌==◌, if◌then◌else◌, pos, arith,
}
use linux_rustlux.Bits.Digit.{digit, and-two_pow}
use linux_rustlux.SpliceGuard.{
  eperm, erofs, check_splice_write, check_alg_splice_write, check_xfrm_splice_write,
}

-- A test of one bit is a test of one digit.
bit_test : (k a : ℕ) → not (bit_and a (2 ^ k) == 0) ≡ (digit a k == 1)
bit_test k a = ground (arith, and-two_pow k a, one-le-pow k 2)

-- The result for every mode, flag word and read-only flag: set-user-ID and set-group-ID first,
-- then the read-only file system, then bits 4 and 5 of the flags, and nothing else counts.
pub check_splice_write_lem :
    (i_mode i_flags sb_readonly : ℕ)
    → check_splice_write i_mode i_flags sb_readonly ≡ (
        if digit i_mode 11 == 1 || digit i_mode 10 == 1
        then eperm
        else if sb_readonly == 0
        then (if digit i_flags 4 == 1 || digit i_flags 5 == 1 then eperm else pos 0)
        else erofs)
unfolding check_splice_write
check_splice_write_lem i_mode i_flags sb_readonly = ground (
  arith,
  and-two_pow 11 i_mode,
  and-two_pow 10 i_mode,
  and-two_pow 4 i_flags,
  and-two_pow 5 i_flags,
)

-- A splice is let through exactly when the inode is neither set-user-ID nor set-group-ID, the
-- file system is writable and bits 4 and 5 of the flags are clear; the AF_ALG and xfrm entry
-- points answer the same.
check_splice_write_iff :
    (i_mode i_flags sb_readonly : ℕ)
    → ((check_splice_write i_mode i_flags sb_readonly ≡ pos 0) ↔ (
        (digit i_mode 11 ≡ 0)
        × (digit i_mode 10 ≡ 0)
        × (sb_readonly ≡ 0)
        × (digit i_flags 4 ≡ 0)
        × (digit i_flags 5 ≡ 0)))
      × (check_alg_splice_write i_mode i_flags sb_readonly
          ≡ check_splice_write i_mode i_flags sb_readonly)
      × (check_xfrm_splice_write i_mode i_flags sb_readonly
          ≡ check_splice_write i_mode i_flags sb_readonly)
unfolding check_alg_splice_write check_xfrm_splice_write
check_splice_write_iff i_mode i_flags sb_readonly = (
  (
    λ h. ground (arith, check_splice_write_lem i_mode i_flags sb_readonly),
    λ h. ground (arith, check_splice_write_lem i_mode i_flags sb_readonly),
  ),
  refl,
  refl,
)

-- Flags below bit 4, among them the in-memory S_APPEND and S_IMMUTABLE, do not change the
-- decision.
check_splice_write-low_flags :
    (i_mode i_flags sb_readonly : ℕ)
    → i_flags < 16
    → check_splice_write i_mode i_flags sb_readonly ≡ check_splice_write i_mode 0 sb_readonly
check_splice_write-low_flags i_mode i_flags sb_readonly low = ground (
  arith,
  check_splice_write_lem i_mode i_flags sb_readonly,
  check_splice_write_lem i_mode 0 sb_readonly,
)
