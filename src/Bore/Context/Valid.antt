-- ===== src/Bore/Context/Valid.antt =====
-- rust/rustlux_sched/src/bore.rs: what holds of a task's context at all times, while the
-- parameters stay the same.
use linux_rustlux.Base.{
  ℕ, ◌/◌, ◌^◌, ◌≤◌, ◌<◌, max, ◌≡◌, Bool, if◌then◌else◌, arith, u16, wrapping_sub32,
}
use linux_rustlux.Bore.Params.{BoreParams, InRange, max_burst_penalty}
use linux_rustlux.Bore.Cache.{BoreBc}
use linux_rustlux.Bore.Penalty.{calc_burst_penalty}
use linux_rustlux.Bore.Penalty.Calc.{keep_negative_lem}
use linux_rustlux.Bore.Penalty.Laws.{Laws, penalty-Laws}
use linux_rustlux.Bore.Context.{
  BoreCtx, new, saturating_add, raise_penalty, update_curr, restart_burst,
}

-- The current penalty is that of the burst; the effective one is the larger of the previous and
-- the current, and 0 for a kernel thread; the score is its high byte.
pub record IsValid (params : BoreParams) (is_kthread : Bool) (c : BoreCtx) : Type 0 where
  pub fits : c.burst_time < 2 ^ 64
  pub current : c.curr_penalty ≡ calc_burst_penalty c.burst_time params
  pub previous : c.prev_penalty ≤ max_burst_penalty
  pub effective : c.penalty ≡ (if is_kthread then 0 else max c.prev_penalty c.curr_penalty)
  pub scored : c.score ≡ c.penalty / 256

-- The tail of `update_curr` takes the current penalty, which is the larger one.
pub raise_penalty_lem :
    (c : BoreCtx) (is_kthread : Bool)
    → c.prev_penalty < c.curr_penalty
    → c.curr_penalty ≤ max_burst_penalty
    → raise_penalty c is_kthread ≡ record c {
      penalty = if is_kthread then 0 else c.curr_penalty;
      score = (if is_kthread then 0 else c.curr_penalty) / 256;
    }
unfolding raise_penalty
raise_penalty_lem c is_kthread above small =
    ground (arith, keep_negative_lem (wrapping_sub32 c.curr_penalty c.prev_penalty))

module _ (params : BoreParams) (laws : Laws params) (is_kthread : Bool) where
  pub update_curr-IsValid :
      (c : BoreCtx) (delta_ns : ℕ)
      → IsValid params is_kthread c
      → IsValid params is_kthread (update_curr c delta_ns params is_kthread).0
  unfolding update_curr
  update_curr-IsValid c delta_ns v = ground (
    arith,
    laws.bounded (saturating_add c.burst_time delta_ns),
    laws.grows c.burst_time (saturating_add c.burst_time delta_ns) (omega (arith, v.fits))
        (omega arith),
    raise_penalty_lem
        (record c {
          burst_time = saturating_add c.burst_time delta_ns;
          curr_penalty = u16 (calc_burst_penalty (saturating_add c.burst_time delta_ns) params);
        })
        is_kthread,
  )

  pub restart_burst-IsValid :
      (c : BoreCtx)
      → IsValid params is_kthread c
      → IsValid params is_kthread (restart_burst c params is_kthread)
  unfolding restart_burst
  restart_burst-IsValid c v = ground (
    arith,
    laws.bounded c.burst_time,
    laws.at_zero,
    laws.smooth_within c.curr_penalty c.prev_penalty,
  )

-- A task's life under fixed parameters. The C side sets the two flags and the two caches.
pub data Reach (params : BoreParams) (is_kthread : Bool) : BoreCtx → Type 0 where
  fresh : Reach params is_kthread new
  ticked :
      {c : BoreCtx} (delta_ns : ℕ)
      → Reach params is_kthread c
      → Reach params is_kthread (update_curr c delta_ns params is_kthread).0
  slept :
      {c : BoreCtx}
      → Reach params is_kthread c
      → Reach params is_kthread (restart_burst c params is_kthread)
  marked :
      {c : BoreCtx} (stop futex : Bool) (subtree group : BoreBc)
      → Reach params is_kthread c
      → Reach params is_kthread
          (record c { stop_update = stop; futex_waiting = futex; subtree = subtree; group = group })

module _ {params : BoreParams} (laws : Laws params) (is_kthread : Bool) where
  new-IsValid : IsValid params is_kthread new
  new-IsValid = ground (arith, laws.at_zero)

  valid : {c : BoreCtx} → Reach params is_kthread c → IsValid params is_kthread c
  valid fresh = new-IsValid
  valid (ticked {c} delta_ns r) = update_curr-IsValid params laws is_kthread c delta_ns (valid r)
  valid (slept {c} r) = restart_burst-IsValid params laws is_kthread c (valid r)
  valid (marked stop futex subtree group r) =
      let v = valid r in
      record {
        fits = v.fits;
        current = v.current;
        previous = v.previous;
        effective = v.effective;
        scored = v.scored;
      }

  IsValid-score : (c : BoreCtx) → IsValid params is_kthread c → c.score ≤ 39
  IsValid-score c v = ground (arith, laws.bounded c.burst_time)

-- Whatever ticks, sleeps and flag changes a task goes through under parameters in their ranges,
-- its current penalty is that of its burst, its effective penalty the larger of the previous and
-- the current one (0 for a kernel thread), and its score the high byte of that and at most 39.
pub Reach-IsValid :
    {params : BoreParams} {is_kthread : Bool} {c : BoreCtx}
    → InRange params
    → Reach params is_kthread c
    → IsValid params is_kthread c × (c.score ≤ 39)
Reach-IsValid {params} {is_kthread} {c} range r =
    let laws = penalty-Laws params range in
    (valid laws is_kthread r, IsValid-score laws is_kthread c (valid laws is_kthread r))
