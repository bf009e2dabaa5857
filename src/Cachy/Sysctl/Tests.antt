-- ===== src/Cachy/Sysctl/Tests.antt =====
-- patches/0002-bore-cachy.patch: BORE is turned off while a task is weighed down by its score.
use linux_rustlux.Base.{
  ◌-◌, true, false, not, ltb, ◌==◌, ◌&&◌, if◌then◌else◌, ◌≡◌, refl, List, [], ◌∷◌, arith,
}
use linux_rustlux.Bore.Params.{params_default}
use linux_rustlux.Cachy.{Task, Event, ticked, slept, effective_prio_bore, run}
use linux_rustlux.Cachy.Sysctl.{TaskGroup, Bore, Proc, IsMinmax, sched_bore_update_handler}
use linux_rustlux.Cachy.Sysctl.Switched.{InSync, HandledAs, sched_bore_update_handler_lem}
use linux_rustlux.Cachy.Sysctl.Off.{run-off}
use linux_rustlux.Cachy.Sysctl.Turns.{Turns, after_turns, turns-follow}
use linux_rustlux.Bore.Penalty
use linux_rustlux.Bore.Penalty.{effective_prio, log2p1_u64_fp, keep_positive}
use linux_rustlux.Bore.Context.Valid.{IsValid}
use linux_rustlux.Cachy.Steady.{IsSteady}
use linux_rustlux.Cachy.Contexts.{as_ctx}
use linux_rustlux.Cachy.Runs.{rust_run}

-- 22 less than 2 ^ 32 is -EINVAL.
abbrev proc : Proc
proc = record {
  dou8vec_minmax = λ least most old write written.
      if write
      then if ltb written least
        then (4_294_967_274, old)
        else if ltb most written
        then (4_294_967_274, old)
        else (0, written)
      else (0, old);
}

proc-IsMinmax : IsMinmax proc
proc-IsMinmax = record {
  kept = λ least most old written. refl;
  failed = λ least most old written write h. ground arith;
  bounded = λ least most old written h. ground arith;
}

-- Nice 0, with a score of 13.
abbrev task : Task
task = record {
  bore = record {
    burst_time = 5_000_000_000;
    prev_penalty = 3_328;
    curr_penalty = 0;
    penalty = 3_328;
    stop_update = false;
    futex_waiting = false;
    subtree = record { value = 0 };
    group = record { value = 0 };
  };
  static_prio = 120;
  is_kthread = false;
  has_idle_policy = false;
  on_rq = true;
  prio = 33;
}

abbrev on : Bore
on = record {
  sched_bore = 1;
  sysctls = params_default;
  tasklist = (record { leader = task; is_eligible = true; threads = task ∷ [] }) ∷ [];
}

-- The leader weighs as nice 0 does, and the other thread as nice 13 still.
turned_off : sched_bore_update_handler 100 proc true 0 on ≡ (
  record {
    sched_bore = 0;
    sysctls = record params_default { enabled = 0 };
    tasklist =
        (record { leader = record task { prio = 20 }; is_eligible = true; threads = task ∷ [] })
        ∷ [];
  },
  0,
)
unfolding sched_bore_update_handler
turned_off = refl

-- So it stays, whatever the thread does.
thread_left :
    (events : List Event) → (run 100 (record params_default { enabled = 0 }) task events).prio ≡ 33
thread_left events = run-off 100 (record params_default { enabled = 0 }) refl task events

sched_bore_update_handler_lem_example :
    let done = sched_bore_update_handler 100 proc true 0 on in
    InSync done.0 × HandledAs 100 (true && (0 == 0)) 0 0 on done
sched_bore_update_handler_lem_example =
    sched_bore_update_handler_lem 100 proc true 0 on proc-IsMinmax (refl, omega arith)

-- A new task of nice 0 runs for five seconds, BORE is turned off, the task runs on and sleeps, and
-- BORE is turned on again.
abbrev new_tasks : TaskGroup
new_tasks = record {
  leader = record {
    bore = record {
      burst_time = 0;
      prev_penalty = 0;
      curr_penalty = 0;
      penalty = 0;
      stop_update = false;
      futex_waiting = false;
      subtree = record { value = 0 };
      group = record { value = 0 };
    };
    static_prio = 120;
    is_kthread = false;
    has_idle_policy = false;
    on_rq = true;
    prio = 20;
  };
  is_eligible = true;
  threads = [];
}

abbrev turns : Turns
turns = (ticked 5_000_000_000 ∷ [], 0) ∷ (ticked 1_000_000_000 ∷ slept ∷ [], 1) ∷ []

new_tasks-IsValid : IsValid params_default false (as_ctx new_tasks.leader.bore)
unfolding Penalty.calc_burst_penalty log2p1_u64_fp keep_positive
new_tasks-IsValid = record {
  fits = omega arith;
  current = refl;
  previous = omega arith;
  effective = refl;
  scored = refl;
}

new_tasks-IsSteady : IsSteady 100 params_default false 120 new_tasks.leader
unfolding effective_prio_bore
new_tasks-IsSteady = record { kind = refl; nice = refl; busy = refl; runs = refl; weighs = refl }

turns-follow_example :
    let p = (after_turns 100 params_default new_tasks turns).1.leader in
    let ctx =
      rust_run params_default false
        (as_ctx new_tasks.leader.bore)
        (ticked 5_000_000_000 ∷ ticked 1_000_000_000 ∷ slept ∷ []) in
    (as_ctx p.bore ≡ ctx) × (p.prio ≡ effective_prio (120 - 100) ctx.score (not (1 == 0)))
turns-follow_example =
    turns-follow 100 params_default false 120 new_tasks turns (omega arith) (omega arith)
      (omega arith) (omega arith) refl new_tasks-IsValid new_tasks-IsSteady (omega arith)
