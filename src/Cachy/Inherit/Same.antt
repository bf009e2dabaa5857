-- ===== src/Cachy/Inherit/Same.antt =====
-- patches/0002-bore-cachy.patch: a new task inherits what the caches and averages of bore.rs give.
use native.Mathlib.Nat.{div-lt_iff_lt-mul}
use linux_rustlux.Base.{
  ℕ, zero, suc, ◌+◌, ◌*◌, ◌/◌, ◌%◌, ◌^◌, ◌≤◌, ◌<◌, max, min, Bool, true, false, ltb, ◌==◌,
  if◌then◌else◌, u64, ◌<<<◌, ◌>>>◌, wrapping_sub64, ◌≡◌, refl, ap, ◌∙◌, List, Option, some, arith,
}
use mathlib.Core.Option
use linux_rustlux.Bore.Params.{BoreParams}
use linux_rustlux.Bore.Cache.{BoreBc, timestamp, penalty_of, pack, is_expired}
use linux_rustlux.Bore.Cache.Packed.{pack_value}
use linux_rustlux.Bore.Average.{build_reciprocal_lut, average_penalty, lut_loop}
use linux_rustlux.Bore.Average.Exact.{average_penalty_lem}
use linux_rustlux.Cachy.Inherit.{
  bc_timestamp, bc_penalty, bc_of, fill_lut, bore_reciprocal_lut, burst_cache_expired, average_of,
  store, read_back, update_burst_cache, Child, scan_children, inherit_from_parent,
}
use linux_rustlux.Cachy.Inherit.Scan.{AllPenalties, AllUpTo-AllPenalties, scan_children-InBounds}

-- The cache of bore.rs with the same time stamp and penalty.
abbrev pub as_bc : BoreBc → BoreBc
as_bc bc = record { value = bc.value % 2 ^ 48 * 2 ^ 16 + bc.value / 2 ^ 48 }

abbrev pub as_inherited : BoreBc × ℕ → BoreBc × ℕ
as_inherited (bc, penalty) = (as_bc bc, penalty)

bc_penalty-same : (bc : BoreBc) → bc.value < 2 ^ 64 → bc_penalty bc ≡ penalty_of (as_bc bc)
unfolding bc_penalty penalty_of
bc_penalty-same bc fits = omega arith

burst_cache_expired-same :
    (sysctls : BoreParams) (bc : BoreBc) (now : ℕ)
    → bc.value < 2 ^ 64
    → burst_cache_expired sysctls bc now ≡ is_expired (as_bc bc) now sysctls.burst_cache_lifetime_ns
unfolding burst_cache_expired bc_timestamp is_expired timestamp
burst_cache_expired-same sysctls bc now fits =
    let same : u64 ((bc.value % 2 ^ 48) <<< 16)
        ≡ u64 (((bc.value % 2 ^ 48 * 2 ^ 16 + bc.value / 2 ^ 48) >>> 16) <<< 16) =
      omega (arith, fits) in
    ap (λ t. ltb sysctls.burst_cache_lifetime_ns (wrapping_sub64 now t)) same

bc_of-same :
    (now penalty : ℕ)
    → now < 2 ^ 64
    → penalty < 2 ^ 16
    → as_bc (bc_of (now >>> 16) penalty) ≡ pack now penalty
unfolding bc_of pack
bc_of-same now penalty hn hp =
    let same : (as_bc (bc_of (now >>> 16) penalty)).value ≡ (pack now penalty).value =
      omega (arith, pack_value now penalty hn hp) in
    ap {B = BoreBc} (λ v. record { value = v }) same

fill_lut-same : (left i : ℕ) → fill_lut left i ≡ lut_loop left i
unfolding fill_lut lut_loop
fill_lut-same zero i = refl
fill_lut-same (suc left) i = rw (fill_lut-same left (i + 1)) refl

pub average-le :
    (limit total count : ℕ)
    → total ≤ count * limit
    → (if count == 0 then 0 else total / count) ≤ limit
average-le limit total zero le = omega arith
average-le limit total (suc n) le =
    let below : total < (limit + 1) * suc n = grind arith in
    ground
      (arith, (div-lt_iff_lt-mul {k = suc n} {x = total} {y = limit + 1} (omega arith)).1 below)

average_of-same :
    (count total : ℕ)
    → count ≤ 63
    → total ≤ count * 65535
    → average_of count total ≡ average_penalty total count build_reciprocal_lut
unfolding average_of bore_reciprocal_lut build_reciprocal_lut average_penalty
average_of-same zero total few le = let none_yet : total ≡ 0 = omega (arith, le) in rw none_yet refl
average_of-same (suc zero) total few le = refl
average_of-same (suc (suc n)) total few le =
    let here : min (suc (suc n)) 63 ≡ suc (suc n) = omega (arith, few) in
    let some_yet : (suc (suc n) == 0) ≡ false = ground arith in
    rw (here, some_yet, fill_lut-same 63 1) refl

average_penalty-exact :
    (count total : ℕ)
    → count ≤ 63
    → total ≤ count * 65535
    → average_penalty total count build_reciprocal_lut
      ≡ some (if count == 0 then 0 else total / count)
average_penalty-exact count total few le =
    let held : min count 63 ≡ count = omega (arith, few) in
    average_penalty_lem total count (omega (arith, few, le))
    ∙ ap (λ c. some (if count == 0 then 0 else total / c)) held

pub average_of-exact :
    (count total : ℕ)
    → count ≤ 63
    → total ≤ count * 65535
    → average_of count total ≡ some (if count == 0 then 0 else total / count)
average_of-exact count total few le =
    average_of-same count total few le ∙ average_penalty-exact count total few le

choose_back :
    (b : Bool) (x y : Option (BoreBc × ℕ)) (c d : BoreBc)
    → Option.map as_inherited x ≡ some (c, penalty_of c)
    → Option.map as_inherited y ≡ some (d, penalty_of d)
    → Option.map as_inherited (if b then x else y)
      ≡ some (if b then c else d, penalty_of (if b then c else d))
choose_back true x y c d hx hy = hx
choose_back false x y c d hx hy = hy

bc_of-lt : (timestamp penalty : ℕ) → (bc_of timestamp penalty).value < 2 ^ 64
unfolding bc_of
bc_of-lt timestamp penalty = omega arith

read_back-same :
    (bc : BoreBc)
    → bc.value < 2 ^ 64
    → Option.map as_inherited (read_back (some bc)) ≡ some (as_bc bc, penalty_of (as_bc bc))
unfolding read_back
read_back-same bc fits = ap (λ p. some (as_bc bc, p)) (bc_penalty-same bc fits)

-- What has been stored is read back.
stored_back :
    (penalty count total now average : ℕ)
    → average_of count total ≡ some average
    → average ≤ 65535
    → penalty < 2 ^ 16
    → now < 2 ^ 64
    → let fresh = pack now (max average penalty) in
      Option.map as_inherited (read_back (update_burst_cache penalty count total now))
      ≡ some (fresh, penalty_of fresh)
unfolding update_burst_cache store
stored_back penalty count total now average e le hp hn =
    let bc = bc_of (now >>> 16) (max average penalty) in
    ap (λ o. Option.map as_inherited (read_back (store penalty now o))) e
    ∙ (read_back-same bc (bc_of-lt (now >>> 16) (max average penalty))
        ∙ ap (λ bc. some (bc, penalty_of bc))
            (bc_of-same now (max average penalty) hn (omega (arith, le, hp))))

-- In bore.c a new task inherits, for all 64-bit times and 16-bit penalties, the penalty of the
-- cache of bore.rs with the same time stamp and penalty: kept until `is_expired`, and then
-- packed anew from the larger of the penalty of the parent and the exact average of the children
-- that are counted, at most 63, which is `average_penalty`; and the cache that is stored agrees.
pub inherit_from_parent-same :
    (sysctls : BoreParams) (bc : BoreBc) (penalty : ℕ) (children : List Child) (now : ℕ)
    → bc.value < 2 ^ 64
    → penalty < 2 ^ 16
    → AllPenalties children
    → now < 2 ^ 64
    → let (count, total) = scan_children children 0 0 0 in
      let average = if count == 0 then 0 else total / count in
      let cached =
        if is_expired (as_bc bc) now sysctls.burst_cache_lifetime_ns
        then pack now (max average penalty)
        else as_bc bc in
      (count ≤ 63)
      × (average_penalty total count build_reciprocal_lut ≡ some average)
      × (Option.map as_inherited (inherit_from_parent sysctls bc penalty children now)
          ≡ some (cached, penalty_of cached))
unfolding inherit_from_parent update_burst_cache
inherit_from_parent-same sysctls bc penalty children now hb hp small hn =
    let (few, le) =
      scan_children-InBounds 65535 children 0 0 0 (omega arith)
        (AllUpTo-AllPenalties children small) (omega arith, omega arith) in
    let t = scan_children children 0 0 0 in
    let average = if t.0 == 0 then 0 else t.1 / t.0 in
    let fresh = pack now (max average penalty) in
    let expired = is_expired (as_bc bc) now sysctls.burst_cache_lifetime_ns in
    let stored =
      stored_back penalty t.0 t.1 now average (average_of-exact t.0 t.1 few le)
        (average-le 65535 t.1 t.0 le) hp hn in
    (
      few,
      average_penalty-exact t.0 t.1 few le,
      rw (burst_cache_expired-same sysctls bc now hb) (
          choose_back expired (read_back (update_burst_cache penalty t.0 t.1 now))
            (read_back (some bc)) fresh (as_bc bc) stored (read_back-same bc hb)),
    )
