-- ===== src/Bits/Digit.antt =====
-- The digits of `&` and `|`, one at a time.
use Prim.Native.Nat.{bit_or-bitwise}
use native.Mathlib.Nat.{pow-suc, div-one, mul-one}
use linux_rustlux.Base.{
  ℕ, zero, suc, ◌+◌, ◌*◌, ◌/◌, ◌%◌, ◌^◌, min, max, bit_and, bit_or, ◌≡◌, ap, arith,
}
use linux_rustlux.Bits.Binary.{own_count}
use linux_rustlux.Bits.And.{and_step, and-zero}
use linux_rustlux.Bits.Shift.{div-pow-suc}

pub or_step : (a b : ℕ) → bit_or a b ≡ bit_or (a / 2) (b / 2) * 2 + max (a % 2) (b % 2)
or_step zero b = omega (arith, bit_or-bitwise 0 b, bit_or-bitwise 0 (b / 2))
or_step (suc a) b = omega (
  arith,
  bit_or-bitwise (suc a) b,
  bit_or-bitwise (suc a / 2) (b / 2),
  own_count (λ b. b) max a (suc a / 2) (b / 2) (omega arith),
)

-- Digit `k` of a number.
abbrev pub digit : ℕ → ℕ → ℕ
digit a k = a / 2 ^ k % 2

half_and : (a b : ℕ) → bit_and a b / 2 ≡ bit_and (a / 2) (b / 2)
half_and a b = omega (arith, and_step a b)

half_or : (a b : ℕ) → bit_or a b / 2 ≡ bit_or (a / 2) (b / 2)
half_or a b = omega (arith, or_step a b)

pub digit-and : (k a b : ℕ) → digit (bit_and a b) k ≡ min (digit a k) (digit b k)
digit-and zero a b = rw (div-one (bit_and a b), div-one a, div-one b) (omega (arith, and_step a b))
digit-and (suc k) a b = ground (
  arith,
  div-pow-suc a k,
  div-pow-suc b k,
  div-pow-suc (bit_and a b) k,
  half_and a b,
  digit-and k (a / 2) (b / 2),
)

pub digit-or : (k a b : ℕ) → digit (bit_or a b) k ≡ max (digit a k) (digit b k)
digit-or zero a b = rw (div-one (bit_or a b), div-one a, div-one b) (omega (arith, or_step a b))
digit-or (suc k) a b = ground (
  arith,
  div-pow-suc a k,
  div-pow-suc b k,
  div-pow-suc (bit_or a b) k,
  half_or a b,
  digit-or k (a / 2) (b / 2),
)

-- `a & (1 << k)` is digit `k`, in its place.
pub and-two_pow : (k a : ℕ) → bit_and a (2 ^ k) ≡ digit a k * 2 ^ k
and-two_pow zero a = rw (div-one a) (omega (arith, and_step a 1, and-zero (a / 2)))
and-two_pow (suc k) a = ground (
  arith,
  pow-suc 2 k,
  and_step a (2 ^ suc k),
  and-two_pow k (a / 2),
  ap (λ (t : ℕ). digit a (suc k) * t) (pow-suc 2 k),
  ap (λ (t : ℕ). t % 2 * 2 ^ k) (div-pow-suc a k),
)

-- A mask with `k` zeros at its end leaves out the `k` lowest digits.
pub and-shifted : (k a b : ℕ) → bit_and a (b * 2 ^ k) ≡ bit_and (a / 2 ^ k) b * 2 ^ k
and-shifted zero a b = rw (div-one a, mul-one b, mul-one (bit_and a b))
and-shifted (suc k) a b = ground (
  arith,
  pow-suc 2 k,
  and_step a (b * 2 ^ suc k),
  and-shifted k (a / 2) b,
  div-pow-suc a k,
  ap (λ (t : ℕ). b * t) (pow-suc 2 k),
  ap (λ (t : ℕ). bit_and (a / 2 ^ suc k) b * t) (pow-suc 2 k),
  ap (λ (t : ℕ). bit_and t b * 2 ^ k) (div-pow-suc a k),
)
