-- ===== src/Base/Cells.antt =====
-- Arrays of per-CPU values, as functions of the CPU's number: a write to one cell, and the sum
-- of a weight over the first `n` cells.
use Prim.Native.Nat.{ℕ, zero, suc, ◌+◌, ◌≤◌, ◌<◌}
use mathlib.Core.Path.{◌≡◌, refl, subst}
use native.Mathlib.Decide.{dec_lt}
use native.Mathlib.Omega.{arith}
use linux_rustlux.Base.Tests.{◌==◌, if◌then◌else◌}

module _ {ℓ} {A : Type ℓ} where
  abbrev pub update : (ℕ → A) → ℕ → A → ℕ → A
  update cells i a j = if i == j then a else cells j

  unfoldable pub weigh : (A → ℕ) → ℕ → (ℕ → A) → ℕ
  weigh weight zero cells = 0
  weigh weight (suc n) cells = weight (cells n) + weigh weight n cells

  -- A write beyond the first `n` cells does not show in their sum.
  weigh_beyond :
      (weight : A → ℕ) (n : ℕ) (cells : ℕ → A) (i : ℕ) (a : A)
      → n ≤ i
      → weigh weight n (update cells i a) ≡ weigh weight n cells
  unfolding weigh
  weigh_beyond weight zero cells i a h = refl
  weigh_beyond weight (suc n) cells i a h =
      ground (arith, weigh_beyond weight n cells i a (omega arith))

  -- A write to one of them replaces its weight.
  pub weigh-update :
      (weight : A → ℕ) (n : ℕ) (cells : ℕ → A) (i : ℕ) (a : A)
      → i < n
      → weigh weight n (update cells i a) + weight (cells i) ≡ weigh weight n cells + weight a
  unfolding weigh
  weigh-update weight zero cells i a h = absurd (omega arith)
  weigh-update weight (suc n) cells i a h =
      ground (arith, weigh_beyond weight n cells i a, weigh-update weight n cells i a)

  pub weigh-eq-zero : (weight : A → ℕ) (n : ℕ) (a : A) → weight a ≡ 0 → weigh weight n (λ _. a) ≡ 0
  unfolding weigh
  weigh-eq-zero weight zero a h = refl
  weigh-eq-zero weight (suc n) a h = omega (arith, weigh-eq-zero weight n a h)

-- What holds of each number below `n`.
abbrev pub AllBelow {κ} : (ℕ → Type κ) → ℕ → Type κ
AllBelow P zero = Unit
AllBelow P (suc n) = P n × AllBelow P n

module _ {κ} (P : ℕ → Type κ) where
  pub AllBelow-of : (n : ℕ) → ((j : ℕ) → j < n → P j) → AllBelow P n
  AllBelow-of zero f = tt
  AllBelow-of (suc n) f = (f n (omega arith), AllBelow-of n (λ j lt. f j (omega arith)))

  pub AllBelow-at : (n j : ℕ) → j < n → AllBelow P n → P j
  AllBelow-at zero j lt all = absurd (omega arith)
  AllBelow-at (suc n) j lt all = elim (dec_lt j n) [
    | yes below ↦ AllBelow-at n j below all.1
    | no last ↦ let e : n ≡ j = omega arith in subst P e all.0
  ]

-- Sums of equal weights are equal, and a sum is at least each of its weights.
pub weigh_congr {ℓ κ} :
    {A : Type ℓ} {B : Type κ} (f : A → ℕ) (g : B → ℕ) (n : ℕ) (xs : ℕ → A) (ys : ℕ → B)
    → AllBelow (λ j. f (xs j) ≡ g (ys j)) n
    → weigh f n xs ≡ weigh g n ys
unfolding weigh
weigh_congr f g zero xs ys same = refl
weigh_congr f g (suc n) xs ys same = omega (arith, same.0, weigh_congr f g n xs ys same.1)

pub le-weigh {ℓ} :
    {A : Type ℓ} (f : A → ℕ) (n : ℕ) (xs : ℕ → A) (j : ℕ) → j < n → f (xs j) ≤ weigh f n xs
unfolding weigh
le-weigh f zero xs j lt = absurd (omega arith)
le-weigh f (suc n) xs j lt = elim (dec_lt j n) [
  | yes below ↦ omega (arith, le-weigh f n xs j below)
  | no last ↦
      let e : n ≡ j = omega arith in
      subst (λ (k : ℕ). f (xs k) ≤ weigh f (suc n) xs) e (omega arith)
]

pub weigh-none {ℓ} :
    {A : Type ℓ} (f : A → ℕ) (n : ℕ) (xs : ℕ → A)
    → AllBelow (λ j. f (xs j) ≡ 0) n
    → weigh f n xs ≡ 0
unfolding weigh
weigh-none f zero xs none = refl
weigh-none f (suc n) xs none = omega (arith, none.0, weigh-none f n xs none.1)

pub weigh-le {ℓ} :
    {A : Type ℓ} (f : A → ℕ) (n : ℕ) (xs : ℕ → A)
    → AllBelow (λ j. f (xs j) ≤ 1) n
    → weigh f n xs ≤ n
unfolding weigh
weigh-le f zero xs few = omega arith
weigh-le f (suc n) xs few = omega (arith, few.0, weigh-le f n xs few.1)
