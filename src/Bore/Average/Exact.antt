-- ===== src/Bore/Average/Exact.antt =====
-- rust/rustlux_sched/src/bore.rs: the product with a reciprocal is the quotient.
use native.Mathlib.Nat.{
  mul-le-mul, mul-le-mul_right, mul-le-mul_left, div-add-mod', mod-lt, div-eq_of_lt-le,
  lt_of_mul-lt-mul_right, mod-eq_of_lt, div-le_self, div-lt_iff_lt-mul, div-one,
}
use linux_rustlux.Base.{
  ℕ, zero, suc, ◌+◌, ◌*◌, ◌/◌, ◌%◌, ◌^◌, ◌≤◌, ◌<◌, min, ◌≡◌, refl, ap, ◌∙◌, ◌==◌, if◌then◌else◌,
  arith, u32, u64, ◌>>>◌, Option, some, get_elem?,
}
use linux_rustlux.Bore.Params.{burst_cache_sample_limit}
use linux_rustlux.Bore.Average.{lut_loop, build_reciprocal_lut, average_penalty}

lut_loop_lem :
    (left i k : ℕ)
    → k < left
    → get_elem? (lut_loop left i) k ≡ some (u32 ((0xffff_ffff + (i + k)) / (i + k)))
unfolding lut_loop
lut_loop_lem zero i k h = absurd (omega arith)
lut_loop_lem (suc left) i zero h = let e : i + 0 ≡ i = omega arith in rw e
lut_loop_lem (suc left) i (suc k) h =
    let e : i + suc k ≡ i + 1 + k = omega arith in rw e (lut_loop_lem left (i + 1) k (omega arith))

-- The table holds, for each count from 1 to 63, the reciprocal in 2 ^ 32nds, rounded up, and cut
-- to 32 bits; from 2 on nothing is cut off and the entries fall.
pub lut_entries :
    (i : ℕ)
    → 0 < i
    → i ≤ burst_cache_sample_limit
    → get_elem? build_reciprocal_lut i ≡ some (u32 ((0xffff_ffff + i) / i))
unfolding build_reciprocal_lut
lut_entries zero pos le = absurd (omega arith)
lut_entries (suc k) pos le =
    let e : 1 + k ≡ suc k = omega arith in
    lut_loop_lem 63 1 k (omega arith)
    ∙ ap {B = Option ℕ} (λ (t : ℕ). some (u32 ((0xffff_ffff + t) / t))) e

-- q <= total * recip / 2 ^ 32 < q + 1 for q = total / count: rounding the reciprocal up adds less
-- than what is missing to the next whole number.
reciprocal_quotient :
    (total count : ℕ)
    → 1 < count
    → count < 64
    → total < 2 ^ 26
    → total * ((0xffff_ffff + count) / count) / 2 ^ 32 ≡ total / count
reciprocal_quotient total count more few small =
    div-eq_of_lt-le (2 ^ 32) (omega (arith, scaled_down, mul-le-mul_right recip below))
      (lt_of_mul-lt-mul_right count (omega (arith, scaled_up, bounded, whole, rest)))
  where
    recip : ℕ
    recip = (0xffff_ffff + count) / count

    exact :
        (recip * count + (0xffff_ffff + count) % count ≡ 0xffff_ffff + count)
        × ((0xffff_ffff + count) % count < count)
    exact = (div-add-mod' (0xffff_ffff + count) count, mod-lt (0xffff_ffff + count) (omega arith))

    whole : total / count * count + total % count ≡ total
    whole = div-add-mod' total count

    rest : total % count < count
    rest = mod-lt total (omega arith)

    below : total / count * count ≤ total
    below = omega (arith, whole)

    scaled_down : total / count * 2 ^ 32 ≤ total / count * (recip * count)
    scaled_down = mul-le-mul_left (total / count) (omega (arith, exact))

    scaled_up : total * (recip * count + 1) ≤ total * (2 ^ 32 + count)
    scaled_up = mul-le-mul_left total (omega (arith, exact))

    bounded : total * count ≤ total * 63
    bounded = mul-le-mul_left total (omega arith)

recip-lt : (count : ℕ) → 1 < count → (0xffff_ffff + count) / count < 2 ^ 32
recip-lt count more = (div-lt_iff_lt-mul {k = count} (omega arith)).1 (omega arith)

-- The product of a total with a table entry fits 64 bits, and its upper half is the quotient.
product_lem :
    (total count : ℕ)
    → 1 < count
    → count < 64
    → total < 2 ^ 26
    → u32 (u64 (total * u32 ((0xffff_ffff + count) / count)) >>> 32) ≡ total / count
product_lem total count more few small =
    rw
      (
        mod-eq_of_lt (recip-lt count more),
        mod-eq_of_lt fits,
        reciprocal_quotient total count more few small,
      )
      (mod-eq_of_lt (omega (arith, div-le_self total count)))
  where
    fits : total * ((0xffff_ffff + count) / count) < 2 ^ 64
    fits = omega (
      arith,
      mul-le-mul {n₁ = total} {m₁ = (0xffff_ffff + count) / count} {n₂ = 2 ^ 26} {m₂ = 2 ^ 32}
          (omega arith) (omega (arith, recip-lt count more)),
    )

-- For a total below 2 ^ 26 the average by the reciprocal table is the exact quotient by the
-- count, 63 at most, or 0 for no samples, and the table is never left.
pub average_penalty_lem :
    (total count : ℕ)
    → total < 2 ^ 26
    → average_penalty total count build_reciprocal_lut
      ≡ some (if count == 0 then 0 else total / min count burst_cache_sample_limit)
unfolding average_penalty
average_penalty_lem total zero small = refl
average_penalty_lem total (suc zero) small = ground (arith, div-one total)
average_penalty_lem total (suc (suc n)) small = ground (
  arith,
  lut_entries (min (suc (suc n)) 63) (omega arith) (omega arith),
  product_lem total (min (suc (suc n)) 63) (omega arith) (omega arith) small,
)
