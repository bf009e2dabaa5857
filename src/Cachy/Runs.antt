-- ===== src/Cachy/Runs.antt =====
-- patches/0002-bore-cachy.patch: bore.c and bore.rs take a task through the same contexts, and
-- the weight of the task keeps in step.
use linux_rustlux.Base.{
  ℕ, ◌+◌, ◌-◌, ◌^◌, ◌≤◌, ◌<◌, Bool, not, ◌==◌, List, [], ◌∷◌, ◌≡◌, refl, ap, subst, ◌∙◌, sym, arith,
}
use linux_rustlux.Bore.Params.{BoreParams, InRange}
use linux_rustlux.Bore.Penalty.{effective_prio}
use linux_rustlux.Bore.Penalty.Calc.{calc_burst_penalty-le}
use linux_rustlux.Bore.Penalty.Laws.{penalty-Laws}
use linux_rustlux.Bore.Context
use linux_rustlux.Bore.Context.{update_curr, restart_burst, saturating_add, raise_penalty}
use linux_rustlux.Bore.Context.Valid.{IsValid, update_curr-IsValid, restart_burst-IsValid}
use linux_rustlux.Cachy.{
  Task, score, Event, ticked, slept, update_curr_bore, restart_burst_bore, run,
}
use linux_rustlux.Cachy.Follows.{effective_prio_bore-same}
use linux_rustlux.Cachy.Steady.{IsSteady, update_curr_bore-IsSteady, restart_burst_bore-IsSteady}
use linux_rustlux.Cachy.Contexts.{as_ctx, update_curr_bore-same, restart_burst_bore-same}

-- The same events through bore.rs.
unfoldable pub rust_run : BoreParams → Bool → Context.BoreCtx → List Event → Context.BoreCtx
rust_run params is_kthread ctx [] = ctx
rust_run params is_kthread ctx (ticked delta ∷ events) =
    rust_run params is_kthread (update_curr ctx delta params is_kthread).0 events
rust_run params is_kthread ctx (slept ∷ events) =
    rust_run params is_kthread (restart_burst ctx params is_kthread) events

abbrev pub executed : List Event → ℕ
executed [] = 0
executed (ticked delta ∷ events) = delta + executed events
executed (slept ∷ events) = executed events

module _ (sysctls : BoreParams) where
  -- A tick adds what it executed, and going to sleep starts a burst anew.
  pub update_curr-burst :
      (is_kthread : Bool) (ctx : Context.BoreCtx) (delta : ℕ)
      → (update_curr ctx delta sysctls is_kthread).0.burst_time ≤ ctx.burst_time + delta
  unfolding update_curr raise_penalty
  update_curr-burst is_kthread ctx delta = ground arith

  pub restart_burst-burst :
      (is_kthread : Bool) (ctx : Context.BoreCtx)
      → (restart_burst ctx sysctls is_kthread).burst_time ≡ 0
  unfolding restart_burst
  restart_burst-burst is_kthread ctx = refl

module _ (max_rt_prio : ℕ) (sysctls : BoreParams) where
  -- bore.c and bore.rs from the same context, through the same events, within 64 bits.
  pub run-same :
      (is_kthread : Bool) (static_prio : ℕ) (p : Task) (events : List Event)
      → InRange sysctls
      → IsValid sysctls is_kthread (as_ctx p.bore)
      → IsSteady max_rt_prio sysctls is_kthread static_prio p
      → p.bore.burst_time + executed events < 2 ^ 64
      → (as_ctx (run max_rt_prio sysctls p events).bore
          ≡ rust_run sysctls is_kthread (as_ctx p.bore) events)
        × IsSteady max_rt_prio sysctls is_kthread static_prio (run max_rt_prio sysctls p events)
        × IsValid sysctls is_kthread (as_ctx (run max_rt_prio sysctls p events).bore)
  unfolding run rust_run
  run-same is_kthread static_prio p [] ranges valid st fits = (refl, st, valid)
  run-same is_kthread static_prio p (ticked delta ∷ events) ranges valid st fits =
      let p' = update_curr_bore max_rt_prio sysctls p delta in
      let same =
        update_curr_bore-same max_rt_prio sysctls is_kthread static_prio p delta valid st
          (omega (arith, fits)) in
      let valid' : IsValid sysctls is_kthread (as_ctx p'.bore) =
        subst (IsValid sysctls is_kthread) (sym same) (
          update_curr-IsValid sysctls (penalty-Laws sysctls ranges) is_kthread (as_ctx p.bore) delta
            valid) in
      let rest =
        run-same is_kthread static_prio p' events ranges valid'
          (update_curr_bore-IsSteady max_rt_prio sysctls is_kthread static_prio p delta st)
          (omega (
            arith,
            fits,
            ap (λ (c : Context.BoreCtx). c.burst_time) same,
            update_curr-burst sysctls is_kthread (as_ctx p.bore) delta,
          )) in
      (rest.0 ∙ ap (λ c. rust_run sysctls is_kthread c events) same, rest.1, rest.2)
  run-same is_kthread static_prio p (slept ∷ events) ranges valid st fits =
      let p' = restart_burst_bore max_rt_prio sysctls p in
      let same =
        restart_burst_bore-same max_rt_prio sysctls is_kthread static_prio p valid st ranges in
      let valid' : IsValid sysctls is_kthread (as_ctx p'.bore) =
        subst (IsValid sysctls is_kthread) (sym same) (
          restart_burst-IsValid sysctls (penalty-Laws sysctls ranges) is_kthread (as_ctx p.bore)
            valid) in
      let rest =
        run-same is_kthread static_prio p' events ranges valid'
          (restart_burst_bore-IsSteady max_rt_prio sysctls p st)
          (omega (
            arith,
            fits,
            ap (λ (c : Context.BoreCtx). c.burst_time) same,
            restart_burst-burst sysctls is_kthread (as_ctx p.bore),
          )) in
      (rest.0 ∙ ap (λ c. rust_run sysctls is_kthread c events) same, rest.1, rest.2)

  penalty-lt :
      (is_kthread : Bool) (c : Context.BoreCtx) → IsValid sysctls is_kthread c → c.penalty < 2 ^ 16
  penalty-lt is_kthread c valid = ground (
    arith,
    valid.effective,
    valid.current,
    valid.previous,
    calc_burst_penalty-le c.burst_time sysctls,
  )

  -- A task of bore.c that is neither idle nor in the middle of a reweight, whose context is
  -- valid and whose weight is that of its effective priority, goes through any ticks and sleeps
  -- with the contexts that bore.rs computes, and its weight ends as the one of the effective
  -- priority of bore.rs; for sysctls in their ranges, a MAX_RT_PRIO below 2 ^ 31, nice values
  -- from -20 to 19, and a burst that stays below 2 ^ 64.
  pub run-follows :
      (is_kthread : Bool) (static_prio : ℕ) (p : Task) (events : List Event)
      → InRange sysctls
      → max_rt_prio < 2 ^ 31
      → max_rt_prio ≤ static_prio
      → static_prio < max_rt_prio + 40
      → IsValid sysctls is_kthread (as_ctx p.bore)
      → IsSteady max_rt_prio sysctls is_kthread static_prio p
      → p.bore.burst_time + executed events < 2 ^ 64
      → let p' = run max_rt_prio sysctls p events in
        let ctx = rust_run sysctls is_kthread (as_ctx p.bore) events in
        (as_ctx p'.bore ≡ ctx)
        × (p'.prio
            ≡ effective_prio (static_prio - max_rt_prio) ctx.score (not (sysctls.enabled == 0)))
  run-follows is_kthread static_prio p events ranges small low high valid st fits =
      let done = run-same is_kthread static_prio p events ranges valid st fits in
      let p' = run max_rt_prio sysctls p events in
      let steady = done.1 in
      let nice = steady.nice in
      let small' = penalty-lt is_kthread (as_ctx p'.bore) done.2 in
      let prio =
        effective_prio_bore-same max_rt_prio sysctls p' small
          (omega (arith, low, nice), omega (arith, high, nice), small') in
      let scored = ap (λ (c : Context.BoreCtx). c.score) done.0 in
      (
        done.0,
        steady.weighs
            ∙ prio
            ∙ ap
                (λ s. effective_prio (s - max_rt_prio) (score p'.bore) (not (sysctls.enabled == 0)))
                nice
            ∙ ap (λ s. effective_prio (static_prio - max_rt_prio) s (not (sysctls.enabled == 0)))
                scored,
      )
