-- ===== src/Cachy/Contexts.antt =====
-- patches/0002-bore-cachy.patch: a tick and a sleep in bore.c leave the context that they leave in
-- bore.rs.
use linux_rustlux.Base.{
  ℕ, ◌+◌, ◌^◌, ◌<◌, max, Bool, false, if◌then◌else◌, u16, ◌>>>◌, ◌≡◌, refl, arith,
}
use linux_rustlux.Bore.Params.{BoreParams, InRange}
use linux_rustlux.Bore.Penalty
use linux_rustlux.Bore.Penalty.{effective_prio}
use linux_rustlux.Bore.Penalty.Calc.{calc_burst_penalty-le}
use linux_rustlux.Bore.Context
use linux_rustlux.Bore.Context.{update_curr, restart_burst, saturating_add, raise_penalty}
use linux_rustlux.Bore.Context.Valid.{IsValid, raise_penalty_lem}
use linux_rustlux.Cachy.{BoreCtx, Task, score, update_penalty, update_curr_bore, restart_burst_bore}
use linux_rustlux.Cachy.Arithmetic.{calc_burst_penalty-same, binary_smooth-same}
use linux_rustlux.Cachy.Follows.{shown_penalty_lem, update_penalty-bore}
use linux_rustlux.Cachy.Steady.{IsSteady}

-- The score that bore.rs keeps in a field of its own.
abbrev pub as_ctx : BoreCtx → Context.BoreCtx
as_ctx c = record {
  burst_time = c.burst_time;
  prev_penalty = c.prev_penalty;
  curr_penalty = c.curr_penalty;
  penalty = c.penalty;
  score = score c;
  stop_update = c.stop_update;
  futex_waiting = c.futex_waiting;
  subtree = c.subtree;
  group = c.group;
}

module _ (max_rt_prio : ℕ) (sysctls : BoreParams) where
  -- The context that `update_penalty` leaves, as bore.rs has it.
  pub update_penalty-as_ctx :
      (p : Task)
      → p.bore.stop_update ≡ false
      → p.bore.curr_penalty < 2 ^ 16
      → p.bore.prev_penalty < 2 ^ 16
      → let shown = if p.is_kthread then 0 else max p.bore.curr_penalty p.bore.prev_penalty in
        as_ctx (update_penalty max_rt_prio sysctls p).bore
        ≡ record (as_ctx p.bore) { penalty = shown; score = shown >>> 8 }
  update_penalty-as_ctx p runs hc hp =
      rw (update_penalty-bore max_rt_prio sysctls p runs, shown_penalty_lem p hc hp) refl

  pub update_curr_bore-same :
      (is_kthread : Bool) (static_prio : ℕ) (p : Task) (delta_exec : ℕ)
      → IsValid sysctls is_kthread (as_ctx p.bore)
      → IsSteady max_rt_prio sysctls is_kthread static_prio p
      → p.bore.burst_time + delta_exec < 2 ^ 64
      → as_ctx (update_curr_bore max_rt_prio sysctls p delta_exec).bore
        ≡ (update_curr (as_ctx p.bore) delta_exec sysctls is_kthread).0
  unfolding update_curr_bore update_curr
  update_curr_bore-same is_kthread static_prio p delta_exec valid st fits =
      let burst_time = p.bore.burst_time + delta_exec in
      let bounded = calc_burst_penalty-le burst_time sysctls in
      let curr = Penalty.calc_burst_penalty burst_time sysctls in
      let p' : Task = record p {
        bore = record p.bore { burst_time = burst_time; curr_penalty = curr };
      } in
      ground (
        arith,
        valid.previous,
        st.runs,
        st.kind,
        bounded,
        calc_burst_penalty-same sysctls burst_time,
        update_penalty-as_ctx p' st.runs (omega arith) (omega (arith, valid.previous)),
        raise_penalty_lem (as_ctx p'.bore) is_kthread,
      )

  pub restart_burst_bore-same :
      (is_kthread : Bool) (static_prio : ℕ) (p : Task)
      → IsValid sysctls is_kthread (as_ctx p.bore)
      → IsSteady max_rt_prio sysctls is_kthread static_prio p
      → InRange sysctls
      → as_ctx (restart_burst_bore max_rt_prio sysctls p).bore
        ≡ restart_burst (as_ctx p.bore) sysctls is_kthread
  unfolding restart_burst_bore restart_burst
  restart_burst_bore-same is_kthread static_prio p valid st ranges =
      let bounded = calc_burst_penalty-le p.bore.burst_time sysctls in
      let new =
        Penalty.binary_smooth p.bore.curr_penalty p.bore.prev_penalty sysctls.burst_smoothness in
      let p' : Task = record p {
        bore = record p.bore { burst_time = 0; prev_penalty = u16 new; curr_penalty = 0 };
      } in
      ground (
        arith,
        st.runs,
        st.kind,
        binary_smooth-same sysctls p.bore.curr_penalty p.bore.prev_penalty
            (omega (arith, bounded, valid.current)) (omega (arith, valid.previous))
            (omega (arith, ranges.smoothness)),
        update_penalty-as_ctx p' st.runs (omega arith) (omega arith),
      )
