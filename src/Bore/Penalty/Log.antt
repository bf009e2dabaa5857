-- ===== src/Bore/Penalty/Log.antt =====
-- rust/rustlux_sched/src/bore.rs: the fixed-point logarithm, with the eight fraction bits that
-- its caller asks for.
use native.Mathlib.Nat.{
  mul-le-mul_right, mul-lt-mul_of_pos_right, mul-div-mul_right, one-le-pow, pow-le-pow_right,
  div-eq_of_lt,
}
use linux_rustlux.Bits.Powers.{pow-add, lt_of_pow-lt}
use linux_rustlux.Base.{
  ℕ, ◌+◌, ◌-◌, ◌*◌, ◌/◌, ◌^◌, ◌≤◌, ◌<◌, ◌≡◌, refl, sym, ap, ◌∙◌, arith, dec_lt,
}
use linux_rustlux.Bits.Lead.{leading_zeros, shifted_bounds, leading_zeros-anti}
use linux_rustlux.Bits.Fields.{or-fields}
use linux_rustlux.Bore.Penalty.{log2p1_u64_fp}

-- The word with its leading zeros shifted out.
abbrev normal : ℕ → ℕ
normal v = v * 2 ^ leading_zeros 64 v

-- Whole part and fraction: the number of binary digits, and the eight digits behind the first.
pub log2p1_lem :
    (v : ℕ)
    → 0 < v
    → v < 2 ^ 64
    → log2p1_u64_fp v 8 ≡ (64 - leading_zeros 64 v) * 256 + (normal v - 2 ^ 63) / 2 ^ 55
unfolding log2p1_u64_fp
log2p1_lem v pos fits = ground (
  arith,
  shifted_bounds 64 v pos fits,
  or-fields 8 (64 - leading_zeros 64 v) ((normal v - 2 ^ 63) / 2 ^ 55),
)

pub log2p1-zero : log2p1_u64_fp 0 8 ≡ 0
unfolding log2p1_u64_fp
log2p1-zero = refl

pub log2p1-lt : (v : ℕ) → v < 2 ^ 64 → log2p1_u64_fp v 8 < 65 * 256
log2p1-lt v fits = elim (dec_lt 0 v) [
  | yes pos ↦ omega (arith, log2p1_lem v pos fits, shifted_bounds 64 v pos fits)
  | no nil ↦ let e : v ≡ 0 = omega arith in rw e (omega (arith, log2p1-zero))
]

log2p1_mono_pos : (v w : ℕ) → 0 < v → v ≤ w → w < 2 ^ 64 → log2p1_u64_fp v 8 ≤ log2p1_u64_fp w 8
log2p1_mono_pos v w pos le fits = elim (dec_lt (leading_zeros 64 w) (leading_zeros 64 v)) [
  | yes more ↦ omega (
    arith,
    log2p1_lem v pos (omega arith),
    log2p1_lem w (omega arith) fits,
    shifted_bounds 64 v pos (omega arith),
    shifted_bounds 64 w (omega arith) fits,
  )
  | no same ↦
      let e : leading_zeros 64 v ≡ leading_zeros 64 w =
        omega (arith, leading_zeros-anti 64 v w le) in
      omega (
        arith,
        log2p1_lem v pos (omega arith),
        log2p1_lem w (omega arith) fits,
        e,
        mul-le-mul_right (2 ^ leading_zeros 64 w) le,
        ap (λ (t : ℕ). v * 2 ^ t) e,
      )
]

-- A longer burst has no smaller logarithm.
pub log2p1_mono : (v w : ℕ) → v ≤ w → w < 2 ^ 64 → log2p1_u64_fp v 8 ≤ log2p1_u64_fp w 8
log2p1_mono v w le fits = elim (dec_lt 0 v) [
  | yes pos ↦ log2p1_mono_pos v w pos le fits
  | no nil ↦ let e : v ≡ 0 = omega arith in rw e (omega (arith, log2p1-zero))
]

leading_zeros_lem :
    (k v : ℕ) → 2 ^ k ≤ v → v < 2 ^ (k + 1) → v < 2 ^ 64 → k + leading_zeros 64 v ≡ 63
leading_zeros_lem k v low high fits = omega (
  arith,
  lt_of_pow-lt (k + clz) 64
      (omega (arith, pow-add k clz, mul-le-mul_right (2 ^ clz) low, shifted_bounds 64 v pos fits)),
  lt_of_pow-lt 63 (k + 1 + clz) (
      omega (
        arith,
        pow-add (k + 1) clz,
        mul-lt-mul_of_pos_right {k = 2 ^ clz} high (one-le-pow clz 2 (omega arith)),
        shifted_bounds 64 v pos fits,
      )),
)
  where
    clz : ℕ
    clz = leading_zeros 64 v

    pos : 0 < v
    pos = omega (arith, one-le-pow k 2 (omega arith))

-- A 64-bit word with its first binary digit at k has the logarithm (k + 1) * 256 plus the rest
-- after that digit in 256ths of 2 ^ k, rounded down.
pub log2p1-digits :
    (k v : ℕ)
    → 2 ^ k ≤ v
    → v < 2 ^ (k + 1)
    → v < 2 ^ 64
    → log2p1_u64_fp v 8 ≡ (k + 1) * 256 + (v - 2 ^ k) * 256 / 2 ^ k
log2p1-digits k v low high fits = omega (
  arith,
  log2p1_lem v (omega (arith, one-le-pow k 2 (omega arith))) fits,
  zeros,
  scale,
  mul-div-mul_right {m = 2 ^ leading_zeros 64 v} ((v - 2 ^ k) * 256) (2 ^ k)
      (one-le-pow (leading_zeros 64 v) 2 (omega arith)),
  ap (λ (t : ℕ). (v - 2 ^ k) * 256 * 2 ^ leading_zeros 64 v / t) scale,
  ap (λ (t : ℕ). t * 2 ^ leading_zeros 64 v) split,
)
  where
    zeros : k + leading_zeros 64 v ≡ 63
    zeros = leading_zeros_lem k v low high fits

    scale : 2 ^ k * 2 ^ leading_zeros 64 v ≡ 2 ^ 63
    scale = sym (pow-add k (leading_zeros 64 v)) ∙ ap (λ (t : ℕ). 2 ^ t) zeros

    split : v ≡ v - 2 ^ k + 2 ^ k
    split = omega arith

-- A power of two has no digit behind the first.
pub log2p1-power : (k : ℕ) → k < 64 → log2p1_u64_fp (2 ^ k) 8 ≡ (k + 1) * 256
log2p1-power k h =
    log2p1-digits k (2 ^ k) (omega arith) (omega (arith, pow-add k 1, one-le-pow k 2 (omega arith)))
      (omega (arith, pow-le-pow_right {n = 2} (omega arith) {i = k} {j = 63} (omega arith)))
    ∙ omega (
      arith,
      div-eq_of_lt {n = (2 ^ k - 2 ^ k) * 256} {m = 2 ^ k}
          (omega (arith, one-le-pow k 2 (omega arith))),
    )
