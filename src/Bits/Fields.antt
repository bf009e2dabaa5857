-- ===== src/Bits/Fields.antt =====
-- `(q << k) | r` is a sum where `r` fits `k` bits.
use native.Mathlib.Nat.{pow-suc}
use linux_rustlux.Base.{ℕ, zero, suc, ◌+◌, ◌*◌, ◌/◌, ◌^◌, ◌≤◌, ◌<◌, bit_or, ◌≡◌, refl, ap, arith}
use linux_rustlux.Bits.Digit.{or_step}

or-zero_fuel : (n a : ℕ) → a ≤ n → bit_or a 0 ≡ a
or-zero_fuel n zero h = refl
or-zero_fuel zero (suc a) h = absurd (omega arith)
or-zero_fuel (suc n) (suc a) h =
    omega (arith, or_step (suc a) 0, or-zero_fuel n (suc a / 2) (omega arith))

pub or-zero : (a : ℕ) → bit_or a 0 ≡ a
or-zero a = or-zero_fuel a a (omega arith)

pub or-fields : (k q r : ℕ) → r < 2 ^ k → bit_or (q * 2 ^ k) r ≡ q * 2 ^ k + r
or-fields zero q r fits = ground (arith, or-zero_fuel q q)
or-fields (suc k) q r fits = ground (
  arith,
  pow-suc 2 k,
  ap (λ (t : ℕ). q * t) (pow-suc 2 k),
  or_step (q * 2 ^ suc k) r,
  or-fields k q (r / 2) (omega (arith, pow-suc 2 k)),
)
