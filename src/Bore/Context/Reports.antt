-- ===== src/Bore/Context/Reports.antt =====
-- rust/rustlux_sched/src/bore.rs: when `update_curr` asks for a reweight, and what it leaves alone.
use linux_rustlux.Base.{ℕ, ◌/◌, ◌≡◌, Bool, true, false, ltb, if◌then◌else◌, arith, u16}
use linux_rustlux.Bore.Params.{BoreParams}
use linux_rustlux.Bore.Penalty.{calc_burst_penalty}
use linux_rustlux.Bore.Penalty.Calc.{calc_burst_penalty-le}
use linux_rustlux.Bore.Context.{BoreCtx, saturating_add, update_curr}
use linux_rustlux.Bore.Context.Valid.{IsValid, raise_penalty_lem}

-- `update_curr` on every branch: a stopped context is left alone; otherwise the burst grows,
-- saturating, the current penalty follows it, and exactly when that exceeds the previous penalty
-- the effective penalty becomes the current one (0 for a kernel thread), the score its high
-- byte, and a reweight is asked for.
pub update_curr_lem :
    (c : BoreCtx) (delta_ns : ℕ) (params : BoreParams) (is_kthread : Bool)
    → let burst = saturating_add c.burst_time delta_ns in
      let curr = calc_burst_penalty burst params in
      let shown = if is_kthread then 0 else curr in
      update_curr c delta_ns params is_kthread ≡ (
        if c.stop_update
        then (c, false)
        else if ltb c.prev_penalty curr
        then (
          record c {
            burst_time = burst;
            curr_penalty = curr;
            penalty = shown;
            score = shown / 256;
          },
          true,
        )
        else (record c { burst_time = burst; curr_penalty = curr }, false))
unfolding update_curr
update_curr_lem c delta_ns params is_kthread =
    let burst = saturating_add c.burst_time delta_ns in
    ground (
      arith,
      calc_burst_penalty-le burst params,
      raise_penalty_lem
          (record c { burst_time = burst; curr_penalty = u16 (calc_burst_penalty burst params) })
          is_kthread,
    )

-- For a kernel thread with a valid context that is not stopped, `update_curr` keeps penalty 0
-- and the score, and yet asks for a reweight whenever the burst exceeds the previous penalty.
update_curr-kthread :
    (c : BoreCtx) (delta_ns : ℕ) (params : BoreParams)
    → IsValid params true c
    → c.stop_update ≡ false
    → let after = update_curr c delta_ns params true in
      (after.0.penalty ≡ c.penalty)
      × (after.0.score ≡ c.score)
      × (c.penalty ≡ 0)
      × (after.1
          ≡ ltb c.prev_penalty (calc_burst_penalty (saturating_add c.burst_time delta_ns) params))
update_curr-kthread c delta_ns params v runs =
    ground (arith, update_curr_lem c delta_ns params true)
