-- ===== src/Cachy/Fork/NewTask.antt =====
-- patches/0002-bore-cachy.patch: the context and the weight of a new task, from its copy of its
-- maker's and from the penalty that it inherits.
use linux_rustlux.Base.{
  ℕ, ◌+◌, ◌-◌, ◌^◌, ◌≤◌, ◌<◌, max, Bool, true, false, not, ◌==◌, ltb, if◌then◌else◌, u16, ◌>>>◌,
  ◌≡◌, refl, ap, subst, ◌∙◌, sym, List, Option, none, some, arith,
}
use linux_rustlux.Bore.Params.{BoreParams, InRange, max_burst_penalty}
use linux_rustlux.Bore.Penalty.{effective_prio}
use linux_rustlux.Bore.Penalty.Laws.{penalty-Laws}
use linux_rustlux.Bore.Context
use linux_rustlux.Bore.Context.Valid.{IsValid}
use linux_rustlux.Cachy.{BoreCtx, Task, Event, effective_prio_bore, run}
use linux_rustlux.Cachy.Follows.{effective_prio_bore-read}
use linux_rustlux.Cachy.Steady.{IsSteady, update_penalty-IsSteady}
use linux_rustlux.Cachy.Contexts.{as_ctx, update_penalty-as_ctx}
use linux_rustlux.Cachy.Runs.{rust_run, executed, run-follows}
use linux_rustlux.Cachy.Family.{CloneFlags, Family, InheritKeys}
use linux_rustlux.Cachy.Fork.{inherit, start_bore, task_fork_bore}
use linux_rustlux.Cachy.Fork.Inherits.{FamilyUpTo, FamilyWithin, inherit-FamilyWithin}

-- A context of bore.rs that begins a burst with the larger of its previous penalty and the one
-- inherited.
abbrev pub begun : Bool → Context.BoreCtx → ℕ → Context.BoreCtx
begun is_kthread ctx penalty =
    let prev_penalty = max ctx.prev_penalty penalty in
    let shown = if is_kthread then 0 else prev_penalty in
    record ctx {
      burst_time = 0;
      prev_penalty = prev_penalty;
      curr_penalty = 0;
      penalty = shown;
      score = shown >>> 8;
      stop_update = false;
      futex_waiting = false;
    }

-- The copy is of a task that is not idle, whose weight is that of its effective priority.
pub record IsCopy (max_rt_prio : ℕ) (sysctls : BoreParams) (p : Task) : Type 0 where
  pub previous : p.bore.prev_penalty ≤ max_burst_penalty
  pub busy : p.has_idle_policy ≡ false
  pub weighs : p.prio ≡ effective_prio_bore max_rt_prio sysctls p

module _ (max_rt_prio : ℕ) (sysctls : BoreParams) where
  start_bore-IsSteady :
      (p : Task) (penalty : ℕ)
      → IsCopy max_rt_prio sysctls p
      → IsSteady max_rt_prio sysctls p.is_kthread p.static_prio
          (start_bore max_rt_prio sysctls p penalty)
  unfolding start_bore
  start_bore-IsSteady p penalty copy =
      let ctx : BoreCtx = record p.bore {
        prev_penalty = if ltb p.bore.prev_penalty penalty then u16 penalty else p.bore.prev_penalty;
        curr_penalty = 0;
        burst_time = 0;
        stop_update = false;
        futex_waiting = false;
      } in
      let p' : Task = record p { bore = ctx } in
      update_penalty-IsSteady max_rt_prio sysctls p' (record {
        kind = refl;
        nice = refl;
        busy = copy.busy;
        runs = refl;
        weighs = copy.weighs ∙ effective_prio_bore-read max_rt_prio sysctls p p' refl refl;
      })

  start_bore-begun :
      (p : Task) (penalty : ℕ)
      → p.bore.prev_penalty ≤ max_burst_penalty
      → penalty ≤ max_burst_penalty
      → as_ctx (start_bore max_rt_prio sysctls p penalty).bore
        ≡ begun p.is_kthread (as_ctx p.bore) penalty
  unfolding start_bore
  start_bore-begun p penalty hp small =
      let prev = if ltb p.bore.prev_penalty penalty then u16 penalty else p.bore.prev_penalty in
      let larger : prev ≡ max p.bore.prev_penalty penalty = ground arith in
      let p' : Task = record p {
        bore = record p.bore {
          prev_penalty = prev;
          curr_penalty = 0;
          burst_time = 0;
          stop_update = false;
          futex_waiting = false;
        };
      } in
      update_penalty-as_ctx max_rt_prio sysctls p' refl (omega arith) (omega (arith, larger))
      ∙ ground arith

  begun-IsValid :
      (is_kthread : Bool) (ctx : Context.BoreCtx) (penalty : ℕ)
      → InRange sysctls
      → ctx.prev_penalty ≤ max_burst_penalty
      → penalty ≤ max_burst_penalty
      → IsValid sysctls is_kthread (begun is_kthread ctx penalty)
  begun-IsValid is_kthread ctx penalty ranges hp small = record {
    fits = omega arith;
    current = sym (penalty-Laws sysctls ranges).at_zero;
    previous = omega arith;
    effective = ground arith;
    scored = refl;
  }

  -- From its first burst on, the new task goes through the contexts of bore.rs.
  start_bore-follows :
      (p : Task) (penalty : ℕ) (events : List Event)
      → InRange sysctls
      → max_rt_prio < 2 ^ 31
      → max_rt_prio ≤ p.static_prio
      → p.static_prio < max_rt_prio + 40
      → IsCopy max_rt_prio sysctls p
      → penalty ≤ max_burst_penalty
      → executed events < 2 ^ 64
      → let new_task = start_bore max_rt_prio sysctls p penalty in
        let p' = run max_rt_prio sysctls new_task events in
        let ctx = rust_run sysctls p.is_kthread (as_ctx new_task.bore) events in
        (as_ctx p'.bore ≡ ctx)
        × (p'.prio
            ≡ effective_prio (p.static_prio - max_rt_prio) ctx.score (not (sysctls.enabled == 0)))
  start_bore-follows p penalty events ranges range low high copy small fits =
      let p0 = start_bore max_rt_prio sysctls p penalty in
      let same = start_bore-begun p penalty copy.previous small in
      let valid =
        subst (IsValid sysctls p.is_kthread) (sym same)
          (begun-IsValid p.is_kthread (as_ctx p.bore) penalty ranges copy.previous small) in
      let none_yet : p0.bore.burst_time ≡ 0 = ap (λ (c : Context.BoreCtx). c.burst_time) same in
      run-follows max_rt_prio sysctls p.is_kthread p.static_prio p0 events ranges range low high
        valid (start_bore-IsSteady p penalty copy) (omega (arith, none_yet, fits))

  -- What has been inherited, within the limit.
  inherited_of :
      (way : Option (Family × ℕ))
      → FamilyWithin max_burst_penalty way
      → (family : Family) × (penalty : ℕ) × (way ≡ some (family, penalty))
        × FamilyUpTo max_burst_penalty family
        × (penalty ≤ max_burst_penalty)
  inherited_of none way = elim way [ ]
  inherited_of (some (family, penalty)) way = (family, penalty, refl, way.0, way.1)

  task_fork_bore-some :
      (keys : InheritKeys) (p : Task) (clone_flags : CloneFlags) (family : Family) (now : ℕ)
      {family' : Family} {penalty : ℕ}
      → (sysctls.enabled == 0) ≡ false
      → inherit sysctls keys clone_flags family now ≡ some (family', penalty)
      → task_fork_bore max_rt_prio sysctls keys p true clone_flags family now
        ≡ some (family', start_bore max_rt_prio sysctls p penalty)
  unfolding task_fork_bore
  task_fork_bore-some keys p clone_flags family now on way = rw (on, way) refl

  -- With BORE on, sysctls in their ranges, a MAX_RT_PRIO below 2 ^ 31, nice values from -20 to
  -- 19, and less than 2 ^ 64 nanoseconds executed: the fork in bore.c of an eligible task that
  -- is a copy of a task which is not idle, weighs as its effective priority and has a previous
  -- penalty of at most the maximum, does not fail, where the line of its ancestors, which begins
  -- with its maker, is not empty, and no penalty and no cache (of 64 bits) of the family is
  -- above the maximum; the new task inherits, by whichever way the flags and the keys choose, a
  -- penalty of at most the maximum, leaves the family so, begins a burst with the larger of the
  -- previous penalty and the inherited one, and then goes through any ticks and sleeps with the
  -- contexts and the effective priority of bore.rs.
  pub task_fork_bore_lem :
      (keys : InheritKeys) (p : Task) (clone_flags : CloneFlags) (family : Family) (now : ℕ)
      (events : List Event)
      → InRange sysctls
      → (sysctls.enabled == 0) ≡ false
      → max_rt_prio < 2 ^ 31
      → max_rt_prio ≤ p.static_prio
      → p.static_prio < max_rt_prio + 40
      → IsCopy max_rt_prio sysctls p
      → FamilyUpTo max_burst_penalty family
      → executed events < 2 ^ 64
      → (family' : Family) × (penalty : ℕ) × (new_task : Task) × (inherit sysctls keys clone_flags
            family now
          ≡ some (family', penalty))
        × (penalty ≤ max_burst_penalty)
        × FamilyUpTo max_burst_penalty family'
        × (task_fork_bore max_rt_prio sysctls keys p true clone_flags family now
            ≡ some (family', new_task))
        × (as_ctx new_task.bore ≡ begun p.is_kthread (as_ctx p.bore) penalty)
        × (let p' = run max_rt_prio sysctls new_task events in
            let ctx = rust_run sysctls p.is_kthread (as_ctx new_task.bore) events in
            (as_ctx p'.bore ≡ ctx)
            × (p'.prio
                ≡ effective_prio
                    (p.static_prio - max_rt_prio)
                    ctx.score
                    (not (sysctls.enabled == 0))))
  task_fork_bore_lem keys p clone_flags family now events ranges on range low high copy small fits =
      let (family', penalty, way, small', le) =
        inherited_of (inherit sysctls keys clone_flags family now) (
          inherit-FamilyWithin max_burst_penalty (omega arith) sysctls now keys clone_flags family
            small) in
      let same = start_bore-begun p penalty copy.previous le in
      (
        family',
        penalty,
        start_bore max_rt_prio sysctls p penalty,
        way,
        le,
        small',
        task_fork_bore-some keys p clone_flags family now on way,
        same,
        start_bore-follows p penalty events ranges range low high copy le fits,
      )
