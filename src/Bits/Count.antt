-- ===== src/Bits/Count.antt =====
-- `count_ones` of the language: the ones among the lowest `w` digits, and its parity.
use native.Mathlib.Omega.{arith}
use native.Mathlib.Nat.{pow-suc}
use linux_rustlux.Base.{ℕ, zero, suc, ◌+◌, ◌/◌, ◌%◌, ◌^◌, ◌≤◌, ◌<◌, bit_xor, ◌≡◌, refl}
use linux_rustlux.Bits.Xor.{xor-half, xor-mod}

unfoldable pub count_ones : ℕ → ℕ → ℕ
count_ones zero x = 0
count_ones (suc w) x = x % 2 + count_ones w (x / 2)

-- The ones of an exclusive or, modulo two.
pub count_ones-xor :
    (w a b : ℕ) → count_ones w (bit_xor a b) % 2 ≡ (count_ones w a + count_ones w b) % 2
unfolding count_ones
count_ones-xor zero a b = refl
count_ones-xor (suc w) a b =
    ground (arith, xor-half a b, xor-mod a b, count_ones-xor w (a / 2) (b / 2))

-- The ones of a number that fits in `w` bits, counted in more.
pub count_ones_wide : (k w x : ℕ) → w ≤ k → x < 2 ^ w → count_ones k x ≡ count_ones w x
unfolding count_ones
count_ones_wide zero zero x le fits = refl
count_ones_wide zero (suc w) x le fits = absurd (omega arith)
count_ones_wide (suc k) zero x le fits =
    let small : x / 2 < 2 ^ 0 = omega arith in
    omega (arith, count_ones_wide k 0 (x / 2) (omega arith) small)
count_ones_wide (suc k) (suc w) x le fits =
    let half : x / 2 < 2 ^ w = omega (arith, pow-suc 2 w) in
    omega (arith, count_ones_wide k w (x / 2) (omega arith) half)
