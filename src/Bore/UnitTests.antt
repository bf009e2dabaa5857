-- ===== src/Bore/UnitTests.antt =====
-- rust/rustlux_sched/src/bore.rs: the unit tests of that file. A test is what its assertions check.
use linux_rustlux.Base.{
  ℕ, zero, suc, ◌+◌, ◌-◌, ◌^◌, ◌<◌, ◌≤◌, leb, ◌&&◌, List, Bool, true, false, ◌≡◌, refl, Option,
  none, some, get_elem?, arith,
}
use linux_rustlux.Bits.Lead.{leading_zeros}
use linux_rustlux.Bore.Params.{
  BoreParams, params_default, max_burst_penalty, burst_cache_sample_limit,
}
use linux_rustlux.Bore.Penalty.{
  log2p1_u64_fp, keep_positive, calc_burst_penalty, binary_smooth, effective_prio,
}
use linux_rustlux.Bore.Context.{BoreCtx, new, raise_penalty, update_curr, restart_burst}
use linux_rustlux.Bore.Average.{lut_loop, build_reciprocal_lut}

abbrev Log2p1Zero : Type 0
Log2p1Zero = log2p1_u64_fp 0 8 ≡ 0

abbrev Log2p1One : Type 0
Log2p1One = log2p1_u64_fp 1 8 ≡ 256

abbrev NoPenaltyForShortBurst : Type 0
NoPenaltyForShortBurst = calc_burst_penalty 1_000 params_default ≡ 0

abbrev PenaltyGrowsWithBurst : Type 0
PenaltyGrowsWithBurst =
    calc_burst_penalty 1_000_000 params_default < calc_burst_penalty 1_000_000_000 params_default

abbrev PenaltyClampedToMax : Type 0
PenaltyClampedToMax = calc_burst_penalty (2 ^ 64 - 1) params_default ≤ max_burst_penalty

abbrev SmoothGoingUp : Type 0
SmoothGoingUp = binary_smooth 100 0 1 ≡ 50

abbrev SmoothGoingDownIsImmediate : Type 0
SmoothGoingDownIsImmediate = binary_smooth 10 100 1 ≡ 10

abbrev EffectivePrioClamped : Type 0
EffectivePrioClamped = effective_prio 30 20 true ≡ 39

abbrev KthreadNoPenalty : Type 0
KthreadNoPenalty =
    let (ctx, _) = update_curr new 10_000_000_000 params_default true in
    (ctx.penalty ≡ 0) × (ctx.score ≡ 0)

abbrev FutexWaitFlag : Type 0
FutexWaitFlag =
    let waits : BoreCtx = record new { futex_waiting = true } in
    let wakes : BoreCtx = record waits { futex_waiting = false } in
    (waits.futex_waiting ≡ true) × (wakes.futex_waiting ≡ false)

-- `lut[i] >= lut[j]`, where both are in the table.
abbrev is_at_least : Option ℕ → Option ℕ → Bool
is_at_least (some x) (some y) = leb y x
is_at_least (some x) none = false
is_at_least none y = false

-- The last loop, for `n` values of `i` from 2 on.
abbrev falls : ℕ → List ℕ → Bool
falls zero lut = true
falls (suc n) lut = is_at_least (get_elem? lut (n + 2)) (get_elem? lut (n + 3)) && falls n lut

abbrev ReciprocalLutCorrectness : Type 0
ReciprocalLutCorrectness =
    let lut = build_reciprocal_lut in
    (get_elem? lut 1 ≡ some 0)
    × (get_elem? lut 2 ≡ some 0x8000_0000)
    × (get_elem? lut 3 ≡ some 0x5555_5556)
    × (falls (burst_cache_sample_limit - 2) lut ≡ true)

abbrev RestartBurstResetsTime : Type 0
RestartBurstResetsTime =
    let (ctx, _) = update_curr new 5_000_000_000 params_default false in
    let after = restart_burst ctx params_default false in
    (0 < ctx.burst_time) × (after.burst_time ≡ 0) × (after.curr_penalty ≡ 0)

-- Names what a penalty computes with.
run : ℕ → BoreParams → ℕ
unfolding calc_burst_penalty log2p1_u64_fp keep_positive leading_zeros
run = calc_burst_penalty

penalty_tests :
    Log2p1Zero × Log2p1One × NoPenaltyForShortBurst × PenaltyGrowsWithBurst × PenaltyClampedToMax
unfolding run
penalty_tests = (refl, refl, refl, omega arith, omega arith)

smooth_tests : SmoothGoingUp × SmoothGoingDownIsImmediate × EffectivePrioClamped
unfolding binary_smooth effective_prio
smooth_tests = (refl, refl, refl)

context_tests : KthreadNoPenalty × FutexWaitFlag × RestartBurstResetsTime
unfolding update_curr restart_burst raise_penalty run
context_tests = ((refl, refl), (refl, refl), (omega arith, refl, refl))

lut_test : ReciprocalLutCorrectness
unfolding build_reciprocal_lut lut_loop
lut_test = (refl, refl, refl, refl)
