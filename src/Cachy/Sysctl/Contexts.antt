-- ===== src/Cachy/Sysctl/Contexts.antt =====
-- patches/0002-bore-cachy.patch: what BORE does to the context of a task while it is turned on and
-- off, which is the same.
use linux_rustlux.Base.{
  ℕ, ◌+◌, ◌≤◌, Bool, not, ◌==◌, if◌then◌else◌, ◌≡◌, refl, List, [], ◌∷◌, ◌++◌, arith,
}
use linux_rustlux.Bore.Params.{BoreParams}
use linux_rustlux.Bore.Penalty
use linux_rustlux.Bore.Penalty.{effective_prio}
use linux_rustlux.Bore.Context
use linux_rustlux.Bore.Context.{update_curr, restart_burst}
use linux_rustlux.Bore.Context.Valid.{IsValid}
use linux_rustlux.Cachy.{Event, ticked, slept}
use linux_rustlux.Cachy.Runs.{rust_run, executed, update_curr-burst, restart_burst-burst}

-- The sysctls after the handler of sched_bore has set a value.
abbrev pub switched : BoreParams → ℕ → BoreParams
switched sysctls value = record sysctls { enabled = if not (value == 0) then 1 else 0 }

module _ (params : BoreParams) (is_kthread : Bool) where
  pub rust_run-append :
      (ctx : Context.BoreCtx) (xs ys : List Event)
      → rust_run params is_kthread ctx (xs ++ ys)
        ≡ rust_run params is_kthread (rust_run params is_kthread ctx xs) ys
  unfolding rust_run
  rust_run-append ctx [] ys = refl
  rust_run-append ctx (ticked delta ∷ xs) ys =
      rust_run-append (update_curr ctx delta params is_kthread).0 xs ys
  rust_run-append ctx (slept ∷ xs) ys = rust_run-append (restart_burst ctx params is_kthread) xs ys

  pub rust_run-switched :
      (value : ℕ) (ctx : Context.BoreCtx) (events : List Event)
      → rust_run (switched params value) is_kthread ctx events
        ≡ rust_run params is_kthread ctx events
  unfolding rust_run update_curr restart_burst Penalty.calc_burst_penalty
  rust_run-switched value ctx [] = refl
  rust_run-switched value ctx (ticked delta ∷ events) =
      rust_run-switched value (update_curr ctx delta params is_kthread).0 events
  rust_run-switched value ctx (slept ∷ events) =
      rust_run-switched value (restart_burst ctx params is_kthread) events

  pub rust_run-burst :
      (ctx : Context.BoreCtx) (events : List Event)
      → (rust_run params is_kthread ctx events).burst_time ≤ ctx.burst_time + executed events
  unfolding rust_run
  rust_run-burst ctx [] = omega arith
  rust_run-burst ctx (ticked delta ∷ events) = omega (
    arith,
    rust_run-burst (update_curr ctx delta params is_kthread).0 events,
    update_curr-burst params is_kthread ctx delta,
  )
  rust_run-burst ctx (slept ∷ events) = omega (
    arith,
    rust_run-burst (restart_burst ctx params is_kthread) events,
    restart_burst-burst params is_kthread ctx,
  )

  pub switched-IsValid :
      (value : ℕ) (ctx : Context.BoreCtx)
      → IsValid params is_kthread ctx
      → IsValid (switched params value) is_kthread ctx
  unfolding Penalty.calc_burst_penalty
  switched-IsValid value ctx valid = record {
    fits = valid.fits;
    current = valid.current;
    previous = valid.previous;
    effective = valid.effective;
    scored = valid.scored;
  }

pub executed-append : (xs ys : List Event) → executed (xs ++ ys) ≡ executed xs + executed ys
executed-append [] ys = omega arith
executed-append (ticked delta ∷ xs) ys = omega (arith, executed-append xs ys)
executed-append (slept ∷ xs) ys = executed-append xs ys
