-- ===== src/Bits/And.antt =====
-- `bit_and` by its lowest digit; a mask of low ones is a remainder.
use Prim.Native.Nat.{bit_and-bitwise}
use native.Mathlib.Nat.{pow-suc, one-le-pow}
use linux_rustlux.Bits.Binary.{own_count, min_with_zero}
use linux_rustlux.Bits.Shift.{mod-pow-suc}
use linux_rustlux.Base.{ℕ, zero, suc, ◌+◌, ◌-◌, ◌*◌, ◌/◌, ◌%◌, ◌^◌, min, bit_and, ◌≡◌, arith}

pub zero-and : (b : ℕ) → bit_and 0 b ≡ 0
zero-and b = bit_and-bitwise 0 b

pub and_step : (a b : ℕ) → bit_and a b ≡ bit_and (a / 2) (b / 2) * 2 + min (a % 2) (b % 2)
and_step zero b = omega (arith, zero-and b, zero-and (b / 2))
and_step (suc a) b = omega (
  arith,
  bit_and-bitwise (suc a) b,
  bit_and-bitwise (suc a / 2) (b / 2),
  own_count (λ b. zero) min a (suc a / 2) (b / 2) (omega arith),
)

pub and-zero : (a : ℕ) → bit_and a 0 ≡ 0
and-zero a = omega (arith, bit_and-bitwise a 0, min_with_zero a a)

-- A mask of `k` low ones is the remainder by `2 ^ k`.
pub and-mask : (k a : ℕ) → bit_and a (2 ^ k - 1) ≡ a % 2 ^ k
and-mask zero a = omega (arith, and-zero a)
and-mask (suc k) a = ground (
  arith,
  pow-suc 2 k,
  one-le-pow k 2,
  and_step a (2 ^ suc k - 1),
  and-mask k (a / 2),
  mod-pow-suc a k,
)

pub and-one : (a : ℕ) → bit_and a 1 ≡ a % 2
and-one a = and-mask 1 a

pub and-0x7f : (a : ℕ) → bit_and a 0x7f ≡ a % 128
and-0x7f a = and-mask 7 a
