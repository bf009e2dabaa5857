-- ===== src/Bore/Context/Priority.antt =====
-- rust/rustlux_sched/src/bore.rs: from the burst to the priority that the scheduler sees.
use linux_rustlux.Base.{ℕ, ◌≤◌, ◌<◌, true, false, arith}
use linux_rustlux.Bore.Params.{BoreParams, InRange}
use linux_rustlux.Bore.Penalty.{effective_prio}
use linux_rustlux.Bore.Penalty.Calc.{calc_burst_penalty_mono}
use linux_rustlux.Bore.Penalty.Smooth.{effective_prio_lem}
use linux_rustlux.Bore.Context.{BoreCtx}
use linux_rustlux.Bore.Context.Valid.{Reach, Reach-IsValid}

-- Of two contexts that tasks reach under the same parameters in their ranges, neither a kernel
-- thread, the one with the longer burst and the larger previous penalty has no better effective
-- priority at the same static one below 40, and both priorities lie between the static one and
-- 39.
effective_prio_mono :
    {params : BoreParams} {c d : BoreCtx} (nice : ℕ)
    → InRange params
    → Reach params false c
    → Reach params false d
    → c.burst_time ≤ d.burst_time
    → c.prev_penalty ≤ d.prev_penalty
    → nice < 40
    → (effective_prio nice c.score true ≤ effective_prio nice d.score true)
      × (nice ≤ effective_prio nice c.score true)
      × (effective_prio nice d.score true ≤ 39)
effective_prio_mono {params} {c} {d} nice range rc rd longer before small =
    let (vc, _) = Reach-IsValid range rc in
    let (vd, _) = Reach-IsValid range rd in
    ground (
      arith,
      effective_prio_lem nice c.score true,
      effective_prio_lem nice d.score true,
      calc_burst_penalty_mono c.burst_time d.burst_time params longer vd.fits range,
    )
