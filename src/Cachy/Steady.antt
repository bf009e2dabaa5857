-- ===== src/Cachy/Steady.antt =====
-- patches/0002-bore-cachy.patch: bore.c keeps the weight of a task in step with its penalty.
use linux_rustlux.Base.{ℕ, ◌+◌, Bool, false, leb, u16, u64, either_way, ◌≡◌, refl, ◌∙◌, sym, arith}
use linux_rustlux.Bore.Params.{BoreParams}
use linux_rustlux.Cachy.{
  calc_burst_penalty, binary_smooth, BoreCtx, Task, effective_prio_bore, reweight_task_by_prio,
  update_penalty, update_curr_bore, restart_burst_bore,
}
use linux_rustlux.Cachy.Follows.{update_penalty-prio, effective_prio_bore-read}

module _ (max_rt_prio : ℕ) (sysctls : BoreParams) where
  -- A task that is not idle, of the given kind and static priority, whose weight is that of its
  -- effective priority.
  pub record IsSteady (is_kthread : Bool) (static_prio : ℕ) (p : Task) : Type 0 where
    pub kind : p.is_kthread ≡ is_kthread
    pub nice : p.static_prio ≡ static_prio
    pub busy : p.has_idle_policy ≡ false
    pub runs : p.bore.stop_update ≡ false
    pub weighs : p.prio ≡ effective_prio_bore max_rt_prio sysctls p

  -- Only the penalty and the static priority weigh.
  set_bore-IsSteady :
      {is_kthread : Bool} {static_prio : ℕ} (p : Task) (ctx : BoreCtx)
      → ctx.penalty ≡ p.bore.penalty
      → ctx.stop_update ≡ false
      → IsSteady is_kthread static_prio p
      → IsSteady is_kthread static_prio (record p { bore = ctx })
  set_bore-IsSteady p ctx same runs st = record {
    kind = st.kind;
    nice = st.nice;
    busy = st.busy;
    runs = runs;
    weighs =
        st.weighs
        ∙ effective_prio_bore-read max_rt_prio sysctls p (record p { bore = ctx }) refl (sym same);
  }

  pub update_penalty-IsSteady :
      {is_kthread : Bool} {static_prio : ℕ} (p : Task)
      → IsSteady is_kthread static_prio p
      → IsSteady is_kthread static_prio (update_penalty max_rt_prio sysctls p)
  unfolding update_penalty reweight_task_by_prio
  update_penalty-IsSteady p st = record {
    kind = ground (arith, st.kind);
    nice = ground (arith, st.nice);
    busy = ground (arith, st.busy);
    runs = ground (arith, st.runs);
    weighs = update_penalty-prio max_rt_prio sysctls p st.busy st.weighs;
  }

  pub update_curr_bore-IsSteady :
      (is_kthread : Bool) (static_prio : ℕ) (p : Task) (delta_exec : ℕ)
      → IsSteady is_kthread static_prio p
      → IsSteady is_kthread static_prio (update_curr_bore max_rt_prio sysctls p delta_exec)
  unfolding update_curr_bore
  update_curr_bore-IsSteady is_kthread static_prio p delta_exec st =
      let burst_time = u64 (p.bore.burst_time + delta_exec) in
      let ctx : BoreCtx = record p.bore {
        burst_time = burst_time;
        curr_penalty = u16 (calc_burst_penalty sysctls burst_time);
      } in
      let p' : Task = record p { bore = ctx } in
      let st' = set_bore-IsSteady p ctx refl st.runs st in
      either_way (IsSteady is_kthread static_prio) p.bore.stop_update st (
        either_way (IsSteady is_kthread static_prio) (leb ctx.curr_penalty p.bore.prev_penalty) st'
          (update_penalty-IsSteady p' st'))

  pub restart_burst_bore-IsSteady :
      {is_kthread : Bool} {static_prio : ℕ} (p : Task)
      → IsSteady is_kthread static_prio p
      → IsSteady is_kthread static_prio (restart_burst_bore max_rt_prio sysctls p)
  unfolding restart_burst_bore
  restart_burst_bore-IsSteady p st =
      let new = u16 (binary_smooth sysctls p.bore.curr_penalty p.bore.prev_penalty) in
      let ctx : BoreCtx = record p.bore { prev_penalty = new; curr_penalty = 0; burst_time = 0 } in
      update_penalty-IsSteady (record p { bore = ctx }) (set_bore-IsSteady p ctx refl st.runs st)
