-- ===== src/Bits/Shift.antt =====
-- Exclusive or commutes with shifts to the right and with masks of low ones.
use native.Mathlib.Nat.{pow-succ', div-div-eq-div-mul, div-one, mod-one, div-add-mod'}
use linux_rustlux.Base.{ℕ, zero, suc, ◌+◌, ◌*◌, ◌/◌, ◌%◌, ◌^◌, bit_xor, ◌≡◌, sym, ap, arith}
use linux_rustlux.Bits.Xor.{xor_step, xor-half, xor-mod}

pub div-pow-suc : (a k : ℕ) → a / 2 ^ suc k ≡ a / 2 / 2 ^ k
div-pow-suc a k = rw (pow-succ' 2 k) (sym (div-div-eq-div-mul a 2 (2 ^ k)))

pub xor-div-pow : (k a b : ℕ) → bit_xor a b / 2 ^ k ≡ bit_xor (a / 2 ^ k) (b / 2 ^ k)
xor-div-pow zero a b = rw (div-one (bit_xor a b), div-one a, div-one b)
xor-div-pow (suc k) a b = ground (
  arith,
  div-pow-suc a k,
  div-pow-suc b k,
  div-pow-suc (bit_xor a b) k,
  xor-half a b,
  xor-div-pow k (a / 2) (b / 2),
)

pub mod-pow-suc : (a k : ℕ) → a % 2 ^ suc k ≡ a / 2 % 2 ^ k * 2 + a % 2
mod-pow-suc a k = omega (
  arith,
  div-add-mod' a (2 ^ suc k),
  div-add-mod' (a / 2) (2 ^ k),
  ap (λ (t : ℕ). a / 2 ^ suc k * t) (pow-succ' 2 k),
  ap (λ (t : ℕ). t * 2 ^ k) (div-pow-suc a k),
)

pub xor-mod-pow : (k a b : ℕ) → bit_xor a b % 2 ^ k ≡ bit_xor (a % 2 ^ k) (b % 2 ^ k)
xor-mod-pow zero a b = rw (mod-one (bit_xor a b), mod-one a, mod-one b)
xor-mod-pow (suc k) a b = ground (
  arith,
  mod-pow-suc a k,
  mod-pow-suc b k,
  mod-pow-suc (bit_xor a b) k,
  xor-half a b,
  xor-mod a b,
  xor_step (a % 2 ^ suc k) (b % 2 ^ suc k),
  xor-mod-pow k (a / 2) (b / 2),
)
