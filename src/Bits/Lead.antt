-- ===== src/Bits/Lead.antt =====
-- `leading_zeros` of the language on words of `w` bits, and what shifting them out gives.
use native.Mathlib.Nat.{pow-suc}
use linux_rustlux.Base.{
  ℕ, zero, suc, ◌*◌, ◌^◌, ◌≤◌, ◌<◌, ltb, lt→ltb, dec_lt, false, if◌then◌else◌, ◌≡◌, ap, arith,
}

unfoldable pub leading_zeros : ℕ → ℕ → ℕ
leading_zeros zero v = 0
leading_zeros (suc w) v = if ltb v (2 ^ w) then suc (leading_zeros w v) else 0

pub leading_zeros-le : (w v : ℕ) → leading_zeros w v ≤ w
unfolding leading_zeros
leading_zeros-le zero v = omega arith
leading_zeros-le (suc w) v = ground (arith, leading_zeros-le w v)

not-lt→ltb : (a b : ℕ) → ¬ (a < b) → ltb a b ≡ false
not-lt→ltb a b h = ground arith

-- A word that is not 0, shifted by its leading zeros, has its highest bit set.
pub shifted_bounds :
    (w v : ℕ)
    → 0 < v
    → v < 2 ^ w
    → (v * 2 ^ leading_zeros w v < 2 ^ w)
      × (2 ^ w ≤ 2 * (v * 2 ^ leading_zeros w v))
      × (leading_zeros w v < w)
unfolding leading_zeros
shifted_bounds zero v pos fits = absurd (omega arith)
shifted_bounds (suc w) v pos fits = elim (dec_lt v (2 ^ w)) [
  | yes below ↦ rw (lt→ltb v (2 ^ w) below) (
      omega (
        arith,
        pow-suc 2 w,
        ap (λ (t : ℕ). v * t) (pow-suc 2 (leading_zeros w v)),
        shifted_bounds w v pos below,
      ))
  | no above ↦ rw (not-lt→ltb v (2 ^ w) above) (omega (arith, pow-suc 2 w))
]

pub leading_zeros-anti : (w a b : ℕ) → a ≤ b → leading_zeros w b ≤ leading_zeros w a
unfolding leading_zeros
leading_zeros-anti zero a b le = omega arith
leading_zeros-anti (suc w) a b le = ground (arith, leading_zeros-anti w a b le)
