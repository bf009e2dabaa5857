-- ===== src/Bits/Binary.antt =====
-- The three native operations on binary digits run `digits` on a count of digits to go; any count
-- that the first number does not exceed gives the same.
use Prim.Native.Nat.{digits}
use linux_rustlux.Base.{ℕ, zero, suc, ◌+◌, ◌-◌, ◌*◌, ◌/◌, ◌%◌, ◌≤◌, min, ◌≡◌, refl, ap, ◌∙◌, arith}

-- `n` with `k` successors.
abbrev raise : ℕ → ℕ → ℕ
raise zero n = n
raise (suc k) n = suc (raise k n)

raise_lem : (k n : ℕ) → raise k n ≡ n + k
raise_lem zero n = omega arith
raise_lem (suc k) n = omega (arith, raise_lem k n)

module _ (z : ℕ → ℕ) (f : ℕ → ℕ → ℕ) where
  one_more : (n a b : ℕ) → a ≤ n → digits z f (suc n) a b ≡ digits z f n a b
  one_more zero zero b h = refl
  one_more (suc n) zero b h = refl
  one_more zero (suc a) b h = absurd (omega arith)
  one_more (suc n) (suc a) b h =
      ap (λ (t : ℕ). t * 2 + f (suc a % 2) (b % 2)) (one_more n (suc a / 2) (b / 2) (omega arith))

  any_more : (k n a b : ℕ) → a ≤ n → digits z f (raise k n) a b ≡ digits z f n a b
  any_more zero n a b h = refl
  any_more (suc k) n a b h =
      one_more (raise k n) a b (omega (arith, raise_lem k n)) ∙ any_more k n a b h

  -- The first number is itself such a count.
  pub own_count : (n a b : ℕ) → a ≤ n → digits z f n a b ≡ digits z f a a b
  own_count n a b h =
      let split : n ≡ raise (n - a) a = omega (arith, raise_lem (n - a) a) in
      ap (λ (t : ℕ). digits z f t a b) split ∙ any_more (n - a) a a b (omega arith)

-- Nothing is left of a number beside 0.
pub min_with_zero : (n a : ℕ) → digits (λ b. zero) min n a 0 ≡ 0
min_with_zero zero a = refl
min_with_zero (suc n) zero = refl
min_with_zero (suc n) (suc a) = omega (arith, min_with_zero n (suc a / 2))
