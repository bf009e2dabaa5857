-- ===== src/Bore/Context/Bounded.antt =====
-- rust/rustlux_sched/src/bore.rs: what holds of a task's context even though the parameters may
-- change between any two calls.
use linux_rustlux.Base.{ℕ, ◌/◌, ◌≤◌, ◌≡◌, Bool, if◌then◌else◌, arith}
use linux_rustlux.Bore.Params.{BoreParams, max_burst_penalty}
use linux_rustlux.Bore.Cache.{BoreBc}
use linux_rustlux.Bore.Penalty.Calc.{calc_burst_penalty-le}
use linux_rustlux.Bore.Context.{BoreCtx, new, saturating_add, update_curr, restart_burst}
use linux_rustlux.Bore.Penalty.Laws.{smooth-le}
use linux_rustlux.Bore.Context.Reports.{update_curr_lem}

-- A task's life, each call under parameters of its own.
pub data Life (is_kthread : Bool) : BoreCtx → Type 0 where
  fresh : Life is_kthread new
  ticked :
      {c : BoreCtx} (delta_ns : ℕ) (params : BoreParams)
      → Life is_kthread c
      → Life is_kthread (update_curr c delta_ns params is_kthread).0
  slept :
      {c : BoreCtx} (params : BoreParams)
      → params.burst_smoothness ≤ 3
      → Life is_kthread c
      → Life is_kthread (restart_burst c params is_kthread)
  marked :
      {c : BoreCtx} (stop futex : Bool) (subtree group : BoreBc)
      → Life is_kthread c
      → Life is_kthread
          (record c { stop_update = stop; futex_waiting = futex; subtree = subtree; group = group })

pub record IsBounded (is_kthread : Bool) (c : BoreCtx) : Type 0 where
  pub current : c.curr_penalty ≤ max_burst_penalty
  pub previous : c.prev_penalty ≤ max_burst_penalty
  pub effective : c.penalty ≤ (if is_kthread then 0 else max_burst_penalty)
  pub scored : c.score ≡ c.penalty / 256

update_curr-IsBounded :
    (params : BoreParams) (is_kthread : Bool) (c : BoreCtx) (delta_ns : ℕ)
    → IsBounded is_kthread c
    → IsBounded is_kthread (update_curr c delta_ns params is_kthread).0
update_curr-IsBounded params is_kthread c delta_ns v = ground (
  arith,
  update_curr_lem c delta_ns params is_kthread,
  calc_burst_penalty-le (saturating_add c.burst_time delta_ns) params,
)

restart_burst-IsBounded :
    (params : BoreParams) (is_kthread : Bool) (c : BoreCtx)
    → params.burst_smoothness ≤ 3
    → IsBounded is_kthread c
    → IsBounded is_kthread (restart_burst c params is_kthread)
unfolding restart_burst
restart_burst-IsBounded params is_kthread c few v = ground (
  arith,
  smooth-le c.curr_penalty c.prev_penalty params.burst_smoothness v.current v.previous few,
)

Life-IsBounded : {is_kthread : Bool} {c : BoreCtx} → Life is_kthread c → IsBounded is_kthread c
Life-IsBounded fresh = ground arith
Life-IsBounded {is_kthread} (ticked {c} delta_ns params r) =
    update_curr-IsBounded params is_kthread c delta_ns (Life-IsBounded r)
Life-IsBounded {is_kthread} (slept {c} params few r) =
    restart_burst-IsBounded params is_kthread c few (Life-IsBounded r)
Life-IsBounded (marked stop futex subtree group r) =
    let v = Life-IsBounded r in
    record {
      current = v.current;
      previous = v.previous;
      effective = v.effective;
      scored = v.scored;
    }

-- Even if the parameters change between any two calls, the penalty scale and offset without
-- limits and the smoothness at most 3, a task's effective penalty is at most the maximum (0 for
-- a kernel thread), and its score is the high byte of it and at most 39.
pub Life-bounds :
    {is_kthread : Bool} {c : BoreCtx}
    → Life is_kthread c
    → (c.penalty ≤ (if is_kthread then 0 else max_burst_penalty))
      × (c.score ≤ 39)
      × (c.score ≡ c.penalty / 256)
Life-bounds r = let v = Life-IsBounded r in (v.effective, ground (arith, v), v.scored)
