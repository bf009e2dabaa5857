-- ===== src/Bore/Context.antt =====
-- rust/rustlux_sched/src/bore.rs: the BORE context of one task, updated at each tick and
-- restarted when the task goes to sleep.
pub mod Valid
pub mod Reports
pub mod Priority
pub mod Bounded
use linux_rustlux.Base.{
  ℕ, ◌+◌, ◌-◌, ◌*◌, ◌/◌, ◌%◌, ◌^◌, min, Bool, true, false, leb, if◌then◌else◌, u8, u16, ◌>>>◌,
  wrapping_sub32,
}
use linux_rustlux.Bore.Params.{BoreParams}
use linux_rustlux.Bore.Cache.{BoreBc}
use linux_rustlux.Bore.Penalty.{keep_negative, calc_burst_penalty, binary_smooth}

pub record BoreCtx : Type 0 where
  pub burst_time : ℕ
  pub prev_penalty : ℕ
  pub curr_penalty : ℕ
  pub penalty : ℕ
  pub score : ℕ
  pub stop_update : Bool
  pub futex_waiting : Bool
  pub subtree : BoreBc
  pub group : BoreBc

abbrev pub new : BoreCtx
new = record {
  burst_time = 0;
  prev_penalty = 0;
  curr_penalty = 0;
  penalty = 0;
  score = 0;
  stop_update = false;
  futex_waiting = false;
  subtree = record { value = 0 };
  group = record { value = 0 };
}

-- `saturating_add` on `u64`.
abbrev pub saturating_add : ℕ → ℕ → ℕ
saturating_add a b = min (a + b) (2 ^ 64 - 1)

-- The tail of `update_curr`, for a current penalty above the previous one.
unfoldable pub raise_penalty : BoreCtx → Bool → BoreCtx
raise_penalty ctx is_kthread =
    let diff = wrapping_sub32 ctx.curr_penalty ctx.prev_penalty in
    let max_val = (ctx.curr_penalty + 2 ^ 16 - u16 (keep_negative diff)) % 2 ^ 16 in
    let penalty : ℕ = if is_kthread then 0 else max_val in
    record ctx { penalty = penalty; score = u8 (penalty >>> 8) }

unfoldable pub update_curr : BoreCtx → ℕ → BoreParams → Bool → BoreCtx × Bool
update_curr ctx delta_ns params is_kthread =
    if ctx.stop_update
    then (ctx, false)
    else (let burst_time = saturating_add ctx.burst_time delta_ns in
        let curr_penalty = u16 (calc_burst_penalty burst_time params) in
        let ctx' : BoreCtx = record ctx { burst_time = burst_time; curr_penalty = curr_penalty } in
        if leb curr_penalty ctx.prev_penalty
        then (ctx', false)
        else (raise_penalty ctx' is_kthread, true))

unfoldable pub restart_burst : BoreCtx → BoreParams → Bool → BoreCtx
restart_burst ctx params is_kthread =
    let new_penalty =
      u16 (binary_smooth ctx.curr_penalty ctx.prev_penalty params.burst_smoothness) in
    let penalty : ℕ = if is_kthread then 0 else new_penalty in
    record ctx {
      prev_penalty = new_penalty;
      curr_penalty = 0;
      burst_time = 0;
      penalty = penalty;
      score = u8 (penalty >>> 8);
    }
