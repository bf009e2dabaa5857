-- ===== src/Cachy/Sysctl/Turns.antt =====
-- patches/0002-bore-cachy.patch: a task of bore.c while BORE is turned on and off.
use linux_rustlux.Base.{
  ℕ, ◌+◌, ◌-◌, ◌^◌, ◌≤◌, ◌<◌, Bool, true, false, not, ◌==◌, if◌then◌else◌, ◌≡◌, refl, ap, subst,
  ◌∙◌, sym, List, [], ◌∷◌, ◌++◌, arith,
}
use linux_rustlux.Bore.Params.{BoreParams, InRange}
use linux_rustlux.Bore.Penalty.{effective_prio}
use linux_rustlux.Bore.Context
use linux_rustlux.Bore.Context.{update_curr, restart_burst}
use linux_rustlux.Bore.Context.Valid.{IsValid}
use linux_rustlux.Cachy.{Event, reweight_task_by_prio, run}
use linux_rustlux.Cachy.Follows.{effective_prio_bore-read}
use linux_rustlux.Cachy.Steady.{IsSteady}
use linux_rustlux.Cachy.Contexts.{as_ctx}
use linux_rustlux.Cachy.Runs.{rust_run, executed, run-same, run-follows}
use linux_rustlux.Cachy.Sysctl.{TaskGroup, readjust}
use linux_rustlux.Cachy.Sysctl.Contexts.{
  switched, rust_run-append, rust_run-switched, rust_run-burst, switched-IsValid, executed-append,
}

-- What a leader goes through: each time some events, and then a write of sched_bore.
abbrev pub Turns : Type 0
Turns = List (List Event × ℕ)

abbrev pub all_events : Turns → List Event
all_events [] = []
all_events ((events, value) ∷ turns) = events ++ all_events turns

abbrev pub last_value : ℕ → Turns → ℕ
last_value value [] = value
last_value value ((events, written) ∷ turns) = last_value written turns

last_value-switched :
    (value : ℕ) (turns : Turns)
    → not (last_value (if not (value == 0) then 1 else 0) turns == 0)
      ≡ not (last_value value turns == 0)
last_value-switched value [] = ground arith
last_value-switched value ((events, written) ∷ turns) = refl

module _ (max_rt_prio : ℕ) where
  abbrev pub after_turns : BoreParams → TaskGroup → Turns → BoreParams × TaskGroup
  after_turns sysctls tasks [] = (sysctls, tasks)
  after_turns sysctls tasks ((events, value) ∷ turns) =
      let tasks' : TaskGroup = record tasks {
        leader = run max_rt_prio sysctls tasks.leader events;
      } in
      let sysctls' = switched sysctls value in
      after_turns sysctls' (readjust max_rt_prio sysctls' tasks') turns

  -- What holds of a leader at each turn.
  record IsCarried (sysctls : BoreParams) (is_kthread : Bool) (static_prio : ℕ) (tasks : TaskGroup)
      : Type 0 where
    eligible : tasks.is_eligible ≡ true
    valid : IsValid sysctls is_kthread (as_ctx tasks.leader.bore)
    steady : IsSteady max_rt_prio sysctls is_kthread static_prio tasks.leader

  readjust-bore :
      (sysctls : BoreParams) (tasks : TaskGroup)
      → tasks.leader.bore.stop_update ≡ false
      → (readjust max_rt_prio sysctls tasks).leader.bore ≡ tasks.leader.bore
  unfolding readjust reweight_task_by_prio
  readjust-bore sysctls tasks runs = ground (arith, runs)

  readjust-is_eligible :
      (sysctls : BoreParams) (tasks : TaskGroup)
      → (readjust max_rt_prio sysctls tasks).is_eligible ≡ tasks.is_eligible
  unfolding readjust
  readjust-is_eligible sysctls tasks = ground arith

  readjust-IsSteady :
      (sysctls sysctls' : BoreParams) (is_kthread : Bool) (static_prio : ℕ) (tasks : TaskGroup)
      → tasks.is_eligible ≡ true
      → IsSteady max_rt_prio sysctls is_kthread static_prio tasks.leader
      → IsSteady max_rt_prio sysctls' is_kthread static_prio
          (readjust max_rt_prio sysctls' tasks).leader
  unfolding readjust reweight_task_by_prio
  readjust-IsSteady sysctls sysctls' is_kthread static_prio tasks eligible st =
      let leader = (readjust max_rt_prio sysctls' tasks).leader in
      let same =
        effective_prio_bore-read max_rt_prio sysctls' tasks.leader leader (ground arith)
          (ground arith) in
      record {
        kind = ground (arith, st.kind);
        nice = ground (arith, st.nice);
        busy = ground (arith, st.busy);
        runs = ground (arith, st.runs);
        weighs = ground (arith, st.busy, eligible, same);
      }

  next_turn :
      (sysctls : BoreParams) (is_kthread : Bool) (static_prio : ℕ) (tasks : TaskGroup)
      (events : List Event) (value : ℕ)
      → InRange sysctls
      → IsCarried sysctls is_kthread static_prio tasks
      → tasks.leader.bore.burst_time + executed events < 2 ^ 64
      → let tasks' : TaskGroup = record tasks {
        leader = run max_rt_prio sysctls tasks.leader events;
      } in
        let sysctls' = switched sysctls value in
        let next = readjust max_rt_prio sysctls' tasks' in
        IsCarried sysctls' is_kthread static_prio next
        × (as_ctx next.leader.bore ≡ rust_run sysctls is_kthread (as_ctx tasks.leader.bore) events)
  next_turn sysctls is_kthread static_prio tasks events value ranges carried fits =
      let tasks' : TaskGroup = record tasks {
        leader = run max_rt_prio sysctls tasks.leader events;
      } in
      let sysctls' = switched sysctls value in
      let (same, st, valid) =
        run-same max_rt_prio sysctls is_kthread static_prio tasks.leader events ranges carried.valid
          carried.steady fits in
      let kept = readjust-bore sysctls' tasks' st.runs in
      (
        record {
          eligible = readjust-is_eligible sysctls' tasks' ∙ carried.eligible;
          valid =
              subst (λ c. IsValid sysctls' is_kthread (as_ctx c)) (sym kept)
                (switched-IsValid sysctls is_kthread value (as_ctx tasks'.leader.bore) valid);
          steady =
              readjust-IsSteady sysctls sysctls' is_kthread static_prio tasks' carried.eligible st;
        },
        ap as_ctx kept ∙ same,
      )

  -- A leader of a thread group in bore.c that is eligible, neither idle nor in the middle of a
  -- reweight, whose context is valid and whose weight is that of its effective priority, goes
  -- through any ticks and sleeps, and any number of times at which sched_bore is set between
  -- them, with the contexts that bore.rs computes from the ticks and sleeps alone, and its
  -- weight ends as the effective priority of bore.rs under the last value of sched_bore; for
  -- sysctls in their ranges, a MAX_RT_PRIO below 2 ^ 31, nice values from -20 to 19, and a burst
  -- that stays below 2 ^ 64 together with all that is executed.
  pub turns-follow :
      (sysctls : BoreParams) (is_kthread : Bool) (static_prio : ℕ) (tasks : TaskGroup)
      (turns : Turns)
      → InRange sysctls
      → max_rt_prio < 2 ^ 31
      → max_rt_prio ≤ static_prio
      → static_prio < max_rt_prio + 40
      → tasks.is_eligible ≡ true
      → IsValid sysctls is_kthread (as_ctx tasks.leader.bore)
      → IsSteady max_rt_prio sysctls is_kthread static_prio tasks.leader
      → tasks.leader.bore.burst_time + executed (all_events turns) < 2 ^ 64
      → let p = (after_turns sysctls tasks turns).1.leader in
        let ctx = rust_run sysctls is_kthread (as_ctx tasks.leader.bore) (all_events turns) in
        (as_ctx p.bore ≡ ctx)
        × (p.prio
            ≡ effective_prio
                (static_prio - max_rt_prio)
                ctx.score
                (not (last_value sysctls.enabled turns == 0)))
  unfolding rust_run run
  turns-follow sysctls is_kthread static_prio tasks [] ranges small low high eligible valid st
        fits =
      run-follows max_rt_prio sysctls is_kthread static_prio tasks.leader [] ranges small low high
        valid st (omega (arith, fits))
  turns-follow sysctls is_kthread static_prio tasks ((events, value) ∷ turns) ranges small low high
        eligible valid st fits =
      let sysctls' = switched sysctls value in
      let room = executed-append events (all_events turns) in
      let (next, same) =
        next_turn sysctls is_kthread static_prio tasks events value ranges
          (record { eligible = eligible; valid = valid; steady = st })
          (omega (arith, fits, room)) in
      let tasks' : TaskGroup = record tasks {
        leader = run max_rt_prio sysctls tasks.leader events;
      } in
      let next_tasks = readjust max_rt_prio sysctls' tasks' in
      let ctx0 = as_ctx tasks.leader.bore in
      let ctx = rust_run sysctls is_kthread ctx0 (events ++ all_events turns) in
      let contexts =
        rust_run-switched sysctls is_kthread value (as_ctx next_tasks.leader.bore)
          (all_events turns)
        ∙ ap (λ c. rust_run sysctls is_kthread c (all_events turns)) same
        ∙ sym (rust_run-append sysctls is_kthread ctx0 events (all_events turns)) in
      let later =
        turns-follow sysctls' is_kthread static_prio next_tasks turns
          (record { smoothness = ranges.smoothness; offset = ranges.offset; scale = ranges.scale })
          small low high next.eligible next.valid next.steady
          (omega (
            arith,
            fits,
            room,
            ap (λ (c : Context.BoreCtx). c.burst_time) same,
            rust_run-burst sysctls is_kthread ctx0 events,
          )) in
      let nice = static_prio - max_rt_prio in
      (
        later.0 ∙ contexts,
        later.1
            ∙ ap
                (λ (c : Context.BoreCtx).
                  effective_prio nice c.score (not (last_value sysctls'.enabled turns == 0)))
                contexts
            ∙ ap (effective_prio nice ctx.score) (last_value-switched value turns),
      )
