-- ===== src/PageCache/Permit.antt =====
-- rust/rustlux_mm/src/page_cache.rs: which inodes a permit is given for.
use linux_rustlux.Base.{ℕ, ◌≡◌, ◌⊎◌, ◌↔◌, ◌*◌, ◌^◌, bit_and, Bool, true, false, ok, err, arith}
use linux_rustlux.Bits.Digit.{digit, and-two_pow}
use linux_rustlux.PageCache.{
  from_raw, PageWriteError, suid_or_sgid, read_only_filesystem, immutable_inode, append_only_inode,
  permission_denied, permit, permit_new,
}

-- Why no permit is given: the first of the four checks that fails.
abbrev pub Refused : ℕ → Bool → PageWriteError → Type 0
Refused bits sb_readonly suid_or_sgid = (digit bits 11 ≡ 1) ⊎ (digit bits 10 ≡ 1)
Refused bits sb_readonly read_only_filesystem =
    (digit bits 11 ≡ 0) × (digit bits 10 ≡ 0) × (sb_readonly ≡ true)
Refused bits sb_readonly immutable_inode =
    (digit bits 11 ≡ 0) × (digit bits 10 ≡ 0) × (sb_readonly ≡ false) × (digit bits 3 ≡ 1)
Refused bits sb_readonly append_only_inode =
    (digit bits 11 ≡ 0)
    × (digit bits 10 ≡ 0)
    × (sb_readonly ≡ false)
    × (digit bits 3 ≡ 0)
    × (digit bits 4 ≡ 1)
Refused bits sb_readonly permission_denied = ⊥

-- The four tests of one bit each are tests of one digit each.
pub flag_tests :
    (bits : ℕ)
    → (bit_and bits 0o4000 ≡ digit bits 11 * 2 ^ 11)
      × (bit_and bits 0o2000 ≡ digit bits 10 * 2 ^ 10)
      × (bit_and bits 8 ≡ digit bits 3 * 2 ^ 3)
      × (bit_and bits 16 ≡ digit bits 4 * 2 ^ 4)
flag_tests bits = (and-two_pow 11 bits, and-two_pow 10 bits, and-two_pow 3 bits, and-two_pow 4 bits)

-- A permit is refused with an error exactly when the check that gives this error is the first of
-- the four to fail; `permission_denied` is never given.
pub permit_new-eq-err :
    (bits : ℕ) (sb_readonly : Bool) (error : PageWriteError)
    → (permit_new (from_raw bits) sb_readonly ≡ err error) ↔ Refused bits sb_readonly error
unfolding permit_new
permit_new-eq-err bits sb_readonly suid_or_sgid =
    (λ h. ground (arith, flag_tests bits), λ h. ground (arith, flag_tests bits))
permit_new-eq-err bits sb_readonly error =
    (λ h. ground (arith, flag_tests bits), λ h. ground (arith, flag_tests bits))

-- A permit is given exactly when the inode is neither set-user-ID nor set-group-ID, neither
-- immutable nor append-only by the flag word, and the file system is writable.
permit_new-eq-ok :
    (bits : ℕ) (sb_readonly : Bool)
    → (permit_new (from_raw bits) sb_readonly ≡ ok permit) ↔ (
        (digit bits 11 ≡ 0)
        × (digit bits 10 ≡ 0)
        × (sb_readonly ≡ false)
        × (digit bits 3 ≡ 0)
        × (digit bits 4 ≡ 0))
unfolding permit_new
permit_new-eq-ok bits sb_readonly =
    (λ h. ground (arith, flag_tests bits), λ h. ground (arith, flag_tests bits))
