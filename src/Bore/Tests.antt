-- ===== src/Bore/Tests.antt =====
-- rust/rustlux_sched/src/bore.rs and bore_ffi.rs: the theorems at concrete contexts.
use linux_rustlux.Base.{
  ℕ, ◌+◌, ◌-◌, ◌*◌, ◌/◌, ◌%◌, ◌^◌, ◌≤◌, min, ◌≡◌, true, false, not, ◌==◌, ltb, if◌then◌else◌, some,
  List, [], ◌∷◌, arith,
}
use linux_rustlux.Bits.Lead.{leading_zeros}
use linux_rustlux.Bore.Params.{BoreParams, InRange, params_default, max_burst_penalty}
use linux_rustlux.Bore.Penalty.{log2p1_u64_fp, keep_positive, calc_burst_penalty}
use linux_rustlux.Bore.Penalty.Calc.{calc_burst_penalty-digits}
use linux_rustlux.Bore.Penalty.Smooth.{smooth_times, smooth_times-arrives}
use linux_rustlux.Bore.Cache.{timestamp, penalty_of, pack, is_expired}
use linux_rustlux.Bore.Cache.Packed.{pack_lem}
use linux_rustlux.Bore.Context.{BoreCtx, new, saturating_add, update_curr, restart_burst}
use linux_rustlux.Bore.Context.Valid.{IsValid, fresh, ticked, slept, Reach-IsValid}
use linux_rustlux.Bore.Context.Reports.{update_curr_lem}
use linux_rustlux.Bore.Context.Bounded.{Life, Life-bounds}
use linux_rustlux.Bore.Average.{build_reciprocal_lut, average_penalty}
use linux_rustlux.Bore.Average.Exact.{average_penalty_lem}
use linux_rustlux.Bore.Ffi.{BoreCtxFfi, BoreParamsFfi, ffi_to_ctx}
use linux_rustlux.Cachy
use linux_rustlux.Bore.Ffi.Layout.{little_endian, bore_ctx_bytes, ffi_at, ffi_to_ctx-bore_ctx}
use linux_rustlux.Bore.Ffi.Calls.{
  handed, Call, call_update, call_restart, call_reset, write_fields, calls, calls-IsValid,
}

-- Names what a penalty computes with.
run : ℕ → BoreParams → ℕ
unfolding calc_burst_penalty log2p1_u64_fp keep_positive leading_zeros
run = calc_burst_penalty

-- A task that ran for five seconds and went to sleep.
abbrev slept_task : BoreCtx
slept_task =
    restart_burst (update_curr new 5_000_000_000 params_default false).0 params_default false

default-InRange : InRange params_default
default-InRange = omega arith

-- A burst of one second, whose first digit is at 29.
calc_burst_penalty-digits_example :
    calc_burst_penalty 1_000_000_000 params_default
    ≡ min max_burst_penalty
        (((29 + 1) * 256 + (1_000_000_000 - 2 ^ 29) * 256 / 2 ^ 29 - 24 * 256) * 1_536 / 1_024)
calc_burst_penalty-digits_example =
    calc_burst_penalty-digits 29 1_000_000_000 params_default (omega arith) (omega arith)
      (omega arith) default-InRange

smooth_times-arrives_example : smooth_times 100 100 0 1 ≡ 100
smooth_times-arrives_example =
    smooth_times-arrives 100 100 0 1 (omega arith) (omega arith) (omega arith) (omega arith)

Reach-IsValid_example : IsValid params_default false slept_task × (slept_task.score ≤ 39)
Reach-IsValid_example = Reach-IsValid default-InRange (slept (ticked 5_000_000_000 fresh))

kthread-IsValid : IsValid params_default true new
kthread-IsValid = (Reach-IsValid default-InRange fresh).0

average_penalty_lem_example :
    average_penalty 10_000 7 build_reciprocal_lut ≡ some (if 7 == 0 then 0 else 10_000 / min 7 63)
average_penalty_lem_example = average_penalty_lem 10_000 7 (omega arith)

abbrev blank_layout : BoreCtxFfi
blank_layout = record {
  burst_time = 0;
  prev_penalty = 0;
  curr_penalty = 0;
  penalty = 0;
  score = 0;
  pad = 0;
  stop_update = 0;
  futex_waiting = 0;
  pad2 = [];
  subtree_value = 0;
  group_value = 0;
}

abbrev default_layout : BoreParamsFfi
default_layout = record {
  enabled = 1;
  burst_inherit_type = 2;
  burst_smoothness = 1;
  burst_penalty_offset = 24;
  burst_penalty_scale = 1536;
  burst_cache_lifetime = 75_000_000;
}

update_curr_lem_example :
    let burst = saturating_add 0 5_000_000_000 in
    let curr = calc_burst_penalty burst params_default in
    update_curr new 5_000_000_000 params_default false ≡ (
      if false
      then (new, false)
      else if ltb 0 curr
      then (
        record new { burst_time = burst; curr_penalty = curr; penalty = curr; score = curr / 256 },
        true,
      )
      else (record new { burst_time = burst; curr_penalty = curr }, false))
update_curr_lem_example = update_curr_lem new 5_000_000_000 params_default false

-- A task ticks, sleeps, ticks while its caller has it marked as waiting for a futex, and is reset in between.
abbrev life : List Call
life =
    call_update 5_000_000_000
    ∷ call_restart
    ∷ write_fields 0 1 7 9
    ∷ call_update 80_000_000
    ∷ call_reset
    ∷ call_update 20_000_000
    ∷ []

calls-IsValid_example :
    IsValid params_default
      (not (0 == 0))
      (ffi_to_ctx (calls (handed params_default) 0 (call_reset ∷ life) blank_layout))
    × ((calls (handed params_default) 0 (call_reset ∷ life) blank_layout).score ≤ 39)
calls-IsValid_example = calls-IsValid params_default 0 life blank_layout (omega arith)

-- The tunables are changed while the task sleeps.
abbrev harsher : BoreParams
harsher = record params_default { burst_penalty_offset = 10; burst_penalty_scale = 4_095 }

Life-bounds_example :
    let c = (update_curr slept_task 900_000 harsher false).0 in
    (c.penalty ≤ max_burst_penalty) × (c.score ≤ 39) × (c.score ≡ c.penalty / 256)
Life-bounds_example = Life-bounds (
    Life.ticked 900_000 harsher (
      Life.slept params_default (omega arith)
        (Life.ticked 5_000_000_000 params_default Life.fresh)))

-- A penalty of 300 at one second, 80 milliseconds later, and a cache of all ones.
pack_lem_example :
    (penalty_of (pack 1_000_000_000 300) ≡ 300)
    × (timestamp (pack 1_000_000_000 300) ≡ 1_000_000_000 - 1_000_000_000 % 2 ^ 16)
    × (is_expired (pack 1_000_000_000 300) 1_080_000_000 75_000_000
        ≡ ltb 75_000_000 (1_080_000_000 - 1_000_000_000 + 1_000_000_000 % 2 ^ 16))
    × (pack (timestamp (record { value = 2 ^ 64 - 1 })) (penalty_of (record { value = 2 ^ 64 - 1 }))
        ≡ (record { value = 2 ^ 64 - 1 }))
pack_lem_example =
    pack_lem 1_000_000_000 300 1_080_000_000 75_000_000 (record { value = 2 ^ 64 - 1 })
      (omega arith) (omega arith) (omega arith) (omega arith)

-- A struct bore_ctx with updates stopped, an average of 0x0105 in its subtree cache and 7 in its
-- group cache, and zeroes behind it.
abbrev stopped : Cachy.BoreCtx
stopped = record {
  burst_time = 5_000_000_000;
  prev_penalty = 300;
  curr_penalty = 2_000;
  penalty = 2_000;
  stop_update = true;
  futex_waiting = false;
  subtree = record { value = 0x0105 };
  group = record { value = 7 };
}

ffi_to_ctx-bore_ctx_example :
    let got = ffi_to_ctx (ffi_at (bore_ctx_bytes stopped (λ _. 0))) in
    (got.burst_time ≡ 5_000_000_000)
    × (got.prev_penalty ≡ 300)
    × (got.curr_penalty ≡ 2_000)
    × (got.penalty ≡ 2_000)
    × (got.score ≡ 1)
    × (got.stop_update ≡ true)
    × (got.futex_waiting ≡ true)
    × (got.subtree.value ≡ 7)
    × (got.group.value ≡ 0)
unfolding little_endian
ffi_to_ctx-bore_ctx_example = ffi_to_ctx-bore_ctx stopped (λ _. 0)
