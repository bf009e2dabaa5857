-- ===== src/Bore/Penalty/Smooth.antt =====
-- rust/rustlux_sched/src/bore.rs: smoothing goes up step by step and down at once.
use native.Mathlib.Nat.{
  one-le-pow, pow-le-pow_right, le-div_iff_mul-le, div-lt_iff_lt-mul, le-mul_of_pos_right,
}
use linux_rustlux.Base.{
  ℕ, zero, suc, ◌+◌, ◌-◌, ◌/◌, ◌^◌, ◌≤◌, ◌<◌, min, Bool, true, false, ltb, if◌then◌else◌, ◌≡◌,
  arith, dec_lt,
}
use linux_rustlux.Bore.Penalty.{binary_smooth, effective_prio}

-- The increment, divided by 2 ^ s and rounded up.
pub binary_smooth_lem :
    (new old smoothness : ℕ)
    → new < 2 ^ 16
    → smoothness < 16
    → binary_smooth new old smoothness
      ≡ (if ltb old new then old + (new - old + (2 ^ smoothness - 1)) / 2 ^ smoothness else new)
unfolding binary_smooth
binary_smooth_lem new old smoothness small few = ground (
  arith,
  one-le-pow smoothness 2,
  pow-le-pow_right {n = 2} (omega arith) {i = smoothness} {j = 15} (omega arith),
)

below_next : (a b : ℕ) → a < b + 1 → a ≤ b
below_next a b h = omega arith

ceil_bounds : (k d : ℕ) → 0 < k → 0 < d → (0 < (d + (k - 1)) / k) × ((d + (k - 1)) / k ≤ d)
ceil_bounds k d hk hd = (
  (le-div_iff_mul-le hk).1 (omega arith),
  below_next _ d (
      (div-lt_iff_lt-mul {k = k} {x = d + (k - 1)} {y = d + 1} hk).1
        (omega (arith, le-mul_of_pos_right {m = k} d hk))),
)

-- Smoothing a rise to a 16-bit value, with a smoothness below 16, gets strictly nearer to the
-- new value and never overshoots it; without smoothing it arrives at once, and a fall arrives at
-- once always.
pub binary_smooth_bounds :
    (new old smoothness : ℕ)
    → new < 2 ^ 16
    → smoothness < 16
    → old < new
    → (old < binary_smooth new old smoothness)
      × (binary_smooth new old smoothness ≤ new)
      × (binary_smooth new old 0 ≡ new)
      × (binary_smooth old new smoothness ≡ old)
binary_smooth_bounds new old smoothness small few rise = ground (
  arith,
  ceil_bounds (2 ^ smoothness) (new - old) (one-le-pow smoothness 2 (omega arith)) (omega arith),
  binary_smooth_lem new old smoothness small few,
  binary_smooth_lem new old 0 small (omega arith),
  binary_smooth_lem old new smoothness (omega arith) few,
)

-- Smoothing again and again towards one value.
abbrev pub smooth_times : ℕ → ℕ → ℕ → ℕ → ℕ
smooth_times zero new old smoothness = old
smooth_times (suc n) new old smoothness =
    smooth_times n new (binary_smooth new old smoothness) smoothness

-- Smoothing a rise towards one 16-bit value again and again, with a smoothness below 16, arrives
-- at it, after as many steps as the two are apart at the latest.
pub smooth_times-arrives :
    (n new old smoothness : ℕ)
    → new < 2 ^ 16
    → smoothness < 16
    → old ≤ new
    → new - old ≤ n
    → smooth_times n new old smoothness ≡ new
smooth_times-arrives zero new old smoothness small few le enough = omega arith
smooth_times-arrives (suc n) new old smoothness small few le enough = elim (dec_lt old new) [
  | yes rise ↦
      let step = binary_smooth_bounds new old smoothness small few rise in
      smooth_times-arrives n new (binary_smooth new old smoothness) smoothness small few step.1
        (omega (arith, step))
  | no same ↦
      let e : binary_smooth new old smoothness ≡ new =
        ground (arith, binary_smooth_lem new old smoothness small few) in
      smooth_times-arrives n new (binary_smooth new old smoothness) smoothness small few
        (omega (arith, e)) (omega (arith, e))
]

-- The effective priority is at most 39; it is the static one, held to 39, if BORE is off, and
-- the sum with the score, held to 39, if it is on.
pub effective_prio_lem :
    (static_prio_offset score : ℕ) (bore_enabled : Bool)
    → (effective_prio static_prio_offset score bore_enabled ≤ 39)
      × (effective_prio static_prio_offset score false ≡ min static_prio_offset 39)
      × (effective_prio static_prio_offset score true ≡ min (static_prio_offset + score) 39)
unfolding effective_prio
effective_prio_lem static_prio_offset score bore_enabled = ground arith
