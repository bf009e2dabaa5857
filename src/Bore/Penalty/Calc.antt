-- ===== src/Bore/Penalty/Calc.antt =====
-- rust/rustlux_sched/src/bore.rs: the branch-free penalty against a formula with `max` and `min`,
-- its bound and its order.
use native.Mathlib.Nat.{mul-le-mul, mul-le-mul_right, mod-eq_of_lt, pow-le-pow_right}
use linux_rustlux.Base.Order.{div-le-div}
use linux_rustlux.Base.{
  ℕ, ◌+◌, ◌-◌, ◌*◌, ◌/◌, ◌%◌, ◌^◌, ◌≤◌, ◌<◌, min, ltb, if◌then◌else◌, ◌≡◌, ap, ◌∙◌, arith,
  wrapping_sub32,
}
use linux_rustlux.Bits.And.{and-mask, and-zero}
use linux_rustlux.Bore.Params.{BoreParams, InRange, max_burst_penalty}
use linux_rustlux.Bore.Penalty.{log2p1_u64_fp, keep_positive, keep_negative, calc_burst_penalty}
use linux_rustlux.Bore.Penalty.Log.{log2p1-digits, log2p1-lt, log2p1_mono, log2p1-power}

-- The bit trick is `max(0, x)`: a pattern with the sign bit is dropped, any other is kept.
pub keep_positive_lem : (x : ℕ) → x < 2 ^ 32 → keep_positive x ≡ (if ltb x (2 ^ 31) then x else 0)
unfolding keep_positive
keep_positive_lem x h = ground (arith, and-mask 32 x, and-zero x)

-- The other one is `min(0, x)`, 0 on every pattern without the sign bit.
pub keep_negative_lem : (x : ℕ) → x < 2 ^ 31 → keep_negative x ≡ 0
unfolding keep_negative
keep_negative_lem x h = ground (arith, and-zero x)

-- `max(0, a - b)`
sub_positive : (a b : ℕ) → a < 2 ^ 31 → b < 2 ^ 31 → keep_positive (wrapping_sub32 a b) ≡ a - b
sub_positive a b ha hb = ground (arith, keep_positive_lem (wrapping_sub32 a b))

-- `x - max(0, x - MAX)` is `min(MAX, x)`.
hold_to_max :
    (x : ℕ)
    → x < 2 ^ 31
    → wrapping_sub32 x (keep_positive (wrapping_sub32 x max_burst_penalty))
      ≡ min max_burst_penalty x
hold_to_max x h = omega (arith, sub_positive x max_burst_penalty h (omega arith))

product-lt : (g s : ℕ) → g < 65 * 256 → s ≤ 4095 → g * s < 2 ^ 31
product-lt g s hg hs =
    omega (arith, mul-le-mul {n₁ = g} {m₁ = s} {n₂ = 16639} {m₂ = 4095} (omega arith) hs)

-- For a burst in 64 bits and parameters in their ranges, the branch-free penalty is a formula on
-- numbers: log2p1 above the offset, scaled by 1024ths and held to the maximum.
pub calc_burst_penalty_lem :
    (burst_time : ℕ) (params : BoreParams)
    → burst_time < 2 ^ 64
    → InRange params
    → calc_burst_penalty burst_time params
      ≡ min max_burst_penalty (
          (log2p1_u64_fp burst_time 8 - params.burst_penalty_offset * 256)
          * params.burst_penalty_scale
          / 1024)
unfolding calc_burst_penalty
calc_burst_penalty_lem burst_time params fits ok =
    rw
      (
        mod-eq_of_lt {n = params.burst_penalty_offset * 256} {m = 2 ^ 32} (omega arith),
        sub_positive greed (params.burst_penalty_offset * 256)
            (omega (arith, log2p1-lt burst_time fits)) (omega arith),
        mod-eq_of_lt {n = (greed - params.burst_penalty_offset * 256) * params.burst_penalty_scale}
            {m = 2 ^ 32} (omega (arith, small)),
      )
      (hold_to_max ((greed - params.burst_penalty_offset * 256) * params.burst_penalty_scale / 1024)
        (omega (arith, small)))
  where
    greed : ℕ
    greed = log2p1_u64_fp burst_time 8

    small : (greed - params.burst_penalty_offset * 256) * params.burst_penalty_scale < 2 ^ 31
    small = product-lt _ _ (omega (arith, log2p1-lt burst_time fits)) ok.scale

-- For a positive burst in 64 bits whose first binary digit is at k, and parameters in their
-- ranges, the branch-free penalty is the formula on numbers that starts from log2 + 1, not from
-- the log2 of the comment in the source: (k + 1) * 256 plus the rest after that digit in 256ths
-- of 2 ^ k, rounded down, less the offset in 256ths but not below 0, scaled by 1024ths and held
-- to the maximum.
pub calc_burst_penalty-digits :
    (k burst_time : ℕ) (params : BoreParams)
    → 2 ^ k ≤ burst_time
    → burst_time < 2 ^ (k + 1)
    → burst_time < 2 ^ 64
    → InRange params
    → calc_burst_penalty burst_time params
      ≡ min max_burst_penalty (
          ((k + 1) * 256 + (burst_time - 2 ^ k) * 256 / 2 ^ k - params.burst_penalty_offset * 256)
          * params.burst_penalty_scale
          / 1024)
calc_burst_penalty-digits k burst_time params low high fits ok =
    calc_burst_penalty_lem burst_time params fits ok
    ∙ ap
        (λ greed.
          min max_burst_penalty
            ((greed - params.burst_penalty_offset * 256) * params.burst_penalty_scale / 1024))
        (log2p1-digits k burst_time low high fits)

-- Whatever the parameters are, the penalty is at most the maximum.
pub calc_burst_penalty-le :
    (burst_time : ℕ) (params : BoreParams)
    → calc_burst_penalty burst_time params ≤ max_burst_penalty
unfolding calc_burst_penalty
calc_burst_penalty-le burst_time params = at_most _
  where
    at_most :
        (y : ℕ)
        → wrapping_sub32
            (y % 2 ^ 32 / 1024)
            (keep_positive (wrapping_sub32 (y % 2 ^ 32 / 1024) max_burst_penalty))
          ≤ max_burst_penalty
    at_most y = omega (arith, hold_to_max (y % 2 ^ 32 / 1024) (omega arith))

sub-le-sub : (c a b : ℕ) → a ≤ b → a - c ≤ b - c
sub-le-sub c a b h = omega arith

-- Under parameters in their ranges a longer burst, in 64 bits, has no smaller penalty.
pub calc_burst_penalty_mono :
    (shorter longer : ℕ) (params : BoreParams)
    → shorter ≤ longer
    → longer < 2 ^ 64
    → InRange params
    → calc_burst_penalty shorter params ≤ calc_burst_penalty longer params
calc_burst_penalty_mono shorter longer params le fits ok = omega (
  arith,
  calc_burst_penalty_lem shorter params (omega arith) ok,
  calc_burst_penalty_lem longer params fits ok,
  div-le-div 1024 _ _ (omega arith) (
      mul-le-mul_right params.burst_penalty_scale
        (sub-le-sub (params.burst_penalty_offset * 256) _ _ (log2p1_mono shorter longer le fits))),
)

-- Below the tolerance there is no penalty.
no_penalty :
    (short k : ℕ) (params : BoreParams)
    → InRange params
    → params.burst_penalty_offset ≡ k + 1
    → k < 63
    → short ≤ 2 ^ k
    → calc_burst_penalty short params ≡ 0
no_penalty short k params range e small le = omega (
  arith,
  calc_burst_penalty_lem short params (omega (arith, fits)) range,
  ap (λ (t : ℕ). t * params.burst_penalty_scale) nil,
)
  where
    fits : 2 ^ k ≤ 2 ^ 62
    fits = pow-le-pow_right {n = 2} (omega arith) {i = k} {j = 62} (omega arith)

    nil : log2p1_u64_fp short 8 - params.burst_penalty_offset * 256 ≡ 0
    nil =
        omega
          (arith, log2p1_mono short (2 ^ k) le (omega (arith, fits)), log2p1-power k (omega arith))

-- A burst of 2 ^ offset is a whole digit above it.
quarter_scale :
    (long k : ℕ) (params : BoreParams)
    → InRange params
    → params.burst_penalty_offset ≡ k + 1
    → k < 63
    → 2 ^ (k + 1) ≤ long
    → long < 2 ^ 64
    → min max_burst_penalty (params.burst_penalty_scale / 4) ≤ calc_burst_penalty long params
quarter_scale long k params range e small ge fits = omega (
  arith,
  calc_burst_penalty_lem long params fits range,
  mul-le-mul_right {m = 256} {n = log2p1_u64_fp long 8 - params.burst_penalty_offset * 256}
      params.burst_penalty_scale digit,
)
  where
    digit : 256 ≤ log2p1_u64_fp long 8 - params.burst_penalty_offset * 256
    digit =
        omega (arith, log2p1_mono (2 ^ (k + 1)) long ge fits, log2p1-power (k + 1) (omega arith))

-- For parameters in their ranges with an offset of k + 1 up to 63, a burst of at most 2 ^ k has
-- no penalty, and one of at least 2 ^ (k + 1), in 64 bits, has at least a quarter of the scale,
-- or the maximum where that is less.
calc_burst_penalty-tolerance :
    (short long k : ℕ) (params : BoreParams)
    → InRange params
    → params.burst_penalty_offset ≡ k + 1
    → k < 63
    → short ≤ 2 ^ k
    → 2 ^ (k + 1) ≤ long
    → long < 2 ^ 64
    → (calc_burst_penalty short params ≡ 0)
      × (min max_burst_penalty (params.burst_penalty_scale / 4) ≤ calc_burst_penalty long params)
calc_burst_penalty-tolerance short long k params range e small le ge fits =
    (no_penalty short k params range e small le, quarter_scale long k params range e small ge fits)
