-- ===== src/Cachy/Arithmetic.antt =====
-- patches/0002-bore-cachy.patch: the arithmetic of bore.c is that of bore.rs.
use linux_rustlux.Base.{
  ℕ, ◌-◌, ◌*◌, ◌%◌, ◌^◌, ◌<◌, bit_and, bit_or, Bool, true, false, ltb, if◌then◌else◌, bit_of, u32,
  wrapping_sub32, ◌≡◌, refl, ◌∙◌, arith,
}
use linux_rustlux.Bits.And.{and-mask, and-zero}
use linux_rustlux.Bits.Fields.{or-fields, or-zero}
use linux_rustlux.Bore.Params.{BoreParams}
use linux_rustlux.Bore.Penalty
use linux_rustlux.Bore.Penalty.{
  log2p1_u64_fp, keep_positive, keep_negative, effective_prio, sign_mask,
}
use linux_rustlux.Cachy.{log2p1_u64_u32fp, calc_burst_penalty, binary_smooth}

pub calc_burst_penalty-same :
    (sysctls : BoreParams) (burst_time : ℕ)
    → calc_burst_penalty sysctls burst_time ≡ Penalty.calc_burst_penalty burst_time sysctls
unfolding calc_burst_penalty log2p1_u64_u32fp Penalty.calc_burst_penalty log2p1_u64_fp keep_positive
calc_burst_penalty-same sysctls burst_time = refl

-- A mask of all ones or of none chooses.
choose_lem :
    (b : Bool) (x y : ℕ)
    → x < 2 ^ 32
    → y < 2 ^ 32
    → let mask = wrapping_sub32 0 (bit_of b) in
      bit_or (bit_and x (2 ^ 32 - 1 - mask)) (bit_and y mask) ≡ (if b then y else x)
choose_lem true x y hx hy =
    rw (and-zero x, and-mask 32 y) (or-fields 32 0 (y % 2 ^ 32) (omega arith) ∙ omega arith)
choose_lem false x y hx hy = rw (and-mask 32 x, and-zero y, or-zero (x % 2 ^ 32)) (omega arith)

-- The increment, where it grows.
increment_lem :
    (new old : ℕ) → new < 2 ^ 32 → old < new → u32 (wrapping_sub32 new old * 1) ≡ new - old
increment_lem new old fits grows = omega arith

small_shift : (shift : ℕ) → shift < 32 → shift % 32 ≡ shift
small_shift shift h = omega arith

pub binary_smooth-same :
    (sysctls : BoreParams) (new old : ℕ)
    → new < 2 ^ 32
    → old < 2 ^ 32
    → sysctls.burst_smoothness < 32
    → binary_smooth sysctls new old ≡ Penalty.binary_smooth new old sysctls.burst_smoothness
unfolding binary_smooth Penalty.binary_smooth
binary_smooth-same sysctls new old fits fits' shift =
    choose_lem (ltb old new) new _ fits (omega arith)
    ∙ ground (arith, increment_lem new old fits, small_shift sysctls.burst_smoothness shift)
