-- ===== src/Bore/Penalty.antt =====
-- rust/rustlux_sched/src/bore.rs: the arithmetic of a penalty. Additions, subtractions and
-- products wrap, as without overflow checks. An `i32` is its bit pattern, on which the casts to
-- and from `u32` do nothing.
pub mod Log
pub mod Calc
pub mod Smooth
pub mod Laws
use linux_rustlux.Base.{
  ℕ, ◌+◌, ◌-◌, ◌*◌, ◌/◌, ◌%◌, ◌^◌, min, bit_and, bit_or, Bool, ltb, ◌==◌, if◌then◌else◌, u8, u32,
  u64, ◌<<<◌, ◌>>>◌, wrapping_sub32,
}
use linux_rustlux.Bits.Lead.{leading_zeros}
use linux_rustlux.Bore.Params.{BoreParams, max_burst_penalty}

-- For 0 < fp <= 64; the one caller passes 8.
unfoldable pub log2p1_u64_fp : ℕ → ℕ → ℕ
log2p1_u64_fp v fp =
    if v == 0
    then 0
    else (let clz = leading_zeros 64 v in
        let exponent = 64 - clz in
        let mantissa = u32 (u64 (u64 (v <<< clz) <<< 1) >>> (64 - fp)) in
        bit_or (u32 (exponent <<< fp)) mantissa)

-- `x >> 31` on an `i32`: its sign bit, in all 32 places.
unfoldable pub sign_mask : ℕ → ℕ
sign_mask x = if ltb x (2 ^ 31) then 0 else 2 ^ 32 - 1

-- `x & !(x >> 31)`
unfoldable pub keep_positive : ℕ → ℕ
unfolding sign_mask
keep_positive x = bit_and x (2 ^ 32 - 1 - sign_mask x)

-- `x & (x >> 31)`
unfoldable pub keep_negative : ℕ → ℕ
unfolding sign_mask
keep_negative x = bit_and x (sign_mask x)

unfoldable pub calc_burst_penalty : ℕ → BoreParams → ℕ
calc_burst_penalty burst_time params =
    let greed = log2p1_u64_fp burst_time 8 in
    let tolerance = u32 (params.burst_penalty_offset <<< 8) in
    let diff = wrapping_sub32 greed tolerance in
    let penalty = keep_positive diff in
    let scaled = u32 (penalty * params.burst_penalty_scale) >>> 10 in
    let overflow = wrapping_sub32 scaled max_burst_penalty in
    wrapping_sub32 scaled (keep_positive overflow)

-- A shift by 32 or more takes the amount modulo 32.
unfoldable pub binary_smooth : ℕ → ℕ → ℕ → ℕ
binary_smooth new old smoothness =
    if ltb old new
    then (let increment = new - old in
        let shift = smoothness % 32 in
        u32 (old + (wrapping_sub32 (u32 (increment + u32 (1 <<< shift))) 1 >>> shift)))
    else new

unfoldable pub effective_prio : ℕ → ℕ → Bool → ℕ
effective_prio static_prio_offset score bore_enabled =
    let prio = if bore_enabled then static_prio_offset + score else static_prio_offset in
    u8 (min prio 39)
