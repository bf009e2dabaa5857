-- ===== src/Bore/Penalty/Laws.antt =====
-- rust/rustlux_sched/src/bore.rs: what a task's context relies on of the penalty's arithmetic.
use linux_rustlux.Base.{ℕ, ◌-◌, ◌*◌, ◌^◌, ◌≤◌, ◌<◌, ◌≡◌, ap, arith, dec_lt}
use linux_rustlux.Bore.Params.{BoreParams, InRange, max_burst_penalty}
use linux_rustlux.Bore.Penalty.{log2p1_u64_fp, calc_burst_penalty, binary_smooth}
use linux_rustlux.Bore.Penalty.Log.{log2p1-zero}
use linux_rustlux.Bore.Penalty.Calc.{
  calc_burst_penalty_lem, calc_burst_penalty-le, calc_burst_penalty_mono,
}
use linux_rustlux.Bore.Penalty.Smooth.{binary_smooth_lem, binary_smooth_bounds}

-- The penalty of a burst is bounded, starts at 0 and grows with the burst, and smoothing stays
-- within the bound.
pub record Laws (params : BoreParams) : Type 0 where
  pub bounded : (burst : ℕ) → calc_burst_penalty burst params ≤ max_burst_penalty
  pub at_zero : calc_burst_penalty 0 params ≡ 0
  pub grows :
      (shorter longer : ℕ)
      → shorter ≤ longer
      → longer < 2 ^ 64
      → calc_burst_penalty shorter params ≤ calc_burst_penalty longer params
  pub smooth_within :
      (new old : ℕ)
      → new ≤ max_burst_penalty
      → old ≤ max_burst_penalty
      → binary_smooth new old params.burst_smoothness ≤ max_burst_penalty

calc-zero : (params : BoreParams) → InRange params → calc_burst_penalty 0 params ≡ 0
calc-zero params range = omega (
  arith,
  calc_burst_penalty_lem 0 params (omega arith) range,
  ap (λ (t : ℕ). t * params.burst_penalty_scale) nothing,
)
  where
    nothing : log2p1_u64_fp 0 8 - params.burst_penalty_offset * 256 ≡ 0
    nothing = omega (arith, log2p1-zero)

-- Smoothing stays below the larger of the two.
pub smooth-le :
    (new old smoothness : ℕ)
    → new ≤ max_burst_penalty
    → old ≤ max_burst_penalty
    → smoothness ≤ 3
    → binary_smooth new old smoothness ≤ max_burst_penalty
smooth-le new old smoothness hn ho hs = elim (dec_lt old new) [
  | yes rise ↦
      omega (arith, binary_smooth_bounds new old smoothness (omega arith) (omega arith) rise)
  | no fall ↦ ground (arith, binary_smooth_lem new old smoothness (omega arith) (omega arith))
]

pub penalty-Laws : (params : BoreParams) → InRange params → Laws params
penalty-Laws params range = record {
  bounded = λ burst. calc_burst_penalty-le burst params;
  at_zero = calc-zero params range;
  grows = λ shorter longer le fits. calc_burst_penalty_mono shorter longer params le fits range;
  smooth_within = λ new old hn ho. smooth-le new old params.burst_smoothness hn ho range.smoothness;
}
