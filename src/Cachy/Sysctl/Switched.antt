-- ===== src/Cachy/Sysctl/Switched.antt =====
-- patches/0002-bore-cachy.patch: what turning BORE on or off does to the weights of tasks.
use linux_rustlux.Base.{
  ℕ, Bool, true, false, not, ◌==◌, ◌≡◌, inl, inr, refl, ◌&&◌, ◌≤◌, if◌then◌else◌, List, [], ◌∷◌,
  Bool-cases, arith,
}
use linux_rustlux.Bore.Params.{BoreParams}
use linux_rustlux.Cachy.{effective_prio_bore, reweight_task_by_prio}
use linux_rustlux.Cachy.Follows.{effective_prio_bore-read}
use linux_rustlux.Cachy.Sysctl.{
  TaskGroup, Bore, Proc, IsMinmax, readjust, readjust_all_task_weights, sched_bore_update_handler,
}

-- The switch and its sysctl agree.
abbrev pub InSync : Bore → Type 0
InSync s = (s.sysctls.enabled ≡ s.sched_bore) × (s.sched_bore ≤ 1)

module _ (max_rt_prio : ℕ) where
  -- If the flag is true (eligible and not idle), the leader has the weight of its effective
  -- priority, and on a run queue its updates go on, and else what it had; if not, all is as it was.
  abbrev pub AdjustedAs : Bool → BoreParams → TaskGroup → TaskGroup → Type 0
  AdjustedAs true sysctls old new =
      (new.leader.prio ≡ effective_prio_bore max_rt_prio sysctls new.leader)
      × (new ≡ record old {
        leader = record old.leader {
          bore = record old.leader.bore {
            stop_update = old.leader.bore.stop_update && not old.leader.on_rq;
          };
          prio = new.leader.prio;
        };
      })
  AdjustedAs false sysctls old new = new ≡ old

  abbrev pub IsReadjusted : BoreParams → TaskGroup → TaskGroup → Type 0
  IsReadjusted sysctls old new =
      AdjustedAs (old.is_eligible && not old.leader.has_idle_policy) sysctls old new

  abbrev pub AllReadjusted : BoreParams → List TaskGroup → List TaskGroup → Type 0
  AllReadjusted sysctls [] [] = Unit
  AllReadjusted sysctls (old ∷ before) (new ∷ after) =
      IsReadjusted sysctls old new × AllReadjusted sysctls before after
  AllReadjusted sysctls before after = ⊥

  readjust-still :
      (sysctls : BoreParams) (tasks : TaskGroup)
      → (tasks.is_eligible && not tasks.leader.has_idle_policy) ≡ false
      → readjust max_rt_prio sysctls tasks ≡ tasks
  unfolding readjust reweight_task_by_prio
  readjust-still sysctls tasks still = ground (arith, still)

  readjust-weighs :
      (sysctls : BoreParams) (tasks : TaskGroup)
      → (tasks.is_eligible && not tasks.leader.has_idle_policy) ≡ true
      → AdjustedAs true sysctls tasks (readjust max_rt_prio sysctls tasks)
  unfolding readjust reweight_task_by_prio
  readjust-weighs sysctls tasks moves =
      let leader = (readjust max_rt_prio sysctls tasks).leader in
      let same : effective_prio_bore max_rt_prio sysctls leader
          ≡ effective_prio_bore max_rt_prio sysctls tasks.leader =
        effective_prio_bore-read max_rt_prio sysctls leader tasks.leader (ground arith)
          (ground arith) in
      (ground (arith, moves, same), ground (arith, moves))

  readjust-IsReadjusted :
      (sysctls : BoreParams) (tasks : TaskGroup)
      → IsReadjusted sysctls tasks (readjust max_rt_prio sysctls tasks)
  readjust-IsReadjusted sysctls tasks =
      elim (Bool-cases (tasks.is_eligible && not tasks.leader.has_idle_policy)) [
        | inl moves ↦ rw moves (readjust-weighs sysctls tasks moves)
        | inr still ↦ rw still (readjust-still sysctls tasks still)
      ]

  readjust_all-AllReadjusted :
      (sysctls : BoreParams) (tasklist : List TaskGroup)
      → AllReadjusted sysctls tasklist (readjust_all_task_weights max_rt_prio sysctls tasklist)
  unfolding readjust_all_task_weights
  readjust_all-AllReadjusted sysctls [] = tt
  readjust_all-AllReadjusted sysctls (tasks ∷ tasklist) =
      (readjust-IsReadjusted sysctls tasks, readjust_all-AllReadjusted sysctls tasklist)

  -- By whether it is a write that does not fail: the leaders are weighed anew under the value
  -- written, or nothing is changed.
  abbrev pub HandledAs : Bool → ℕ → ℕ → Bore → Bore × ℕ → Type 0
  HandledAs true failure written s (s', ret) =
      (ret ≡ 0) × (s'.sched_bore ≡ written) × AllReadjusted s'.sysctls s.tasklist s'.tasklist
  HandledAs false failure written s (s', ret) = (ret ≡ failure) × (s' ≡ s)

  -- With a `proc_dou8vec_minmax` that meets IsMinmax, a call of the handler of sched_bore that
  -- is no write, or that fails, changes nothing and returns its result; a write that does not
  -- fail returns 0, sets the value written, and leaves each leader of a thread group that is
  -- eligible and not idle with the weight of its effective priority under that value and its
  -- penalty and, if it is on a run queue, its stop_update cleared, and all else of it, every
  -- other leader and every other thread as it was; the key and the sysctl agree afterwards if
  -- they did before.
  pub sched_bore_update_handler_lem :
      (proc : Proc) (write : Bool) (written : ℕ) (s : Bore)
      → IsMinmax proc
      → InSync s
      → let failure = (proc.dou8vec_minmax 0 1 s.sched_bore write written).0 in
        let done = sched_bore_update_handler max_rt_prio proc write written s in
        InSync done.0 × HandledAs (write && (failure == 0)) failure written s done
  unfolding sched_bore_update_handler
  sched_bore_update_handler_lem proc false written s laws sync =
      let kept = laws.kept 0 1 s.sched_bore written in
      let failure = (proc.dou8vec_minmax 0 1 s.sched_bore false written).0 in
      elim (Bool-cases (failure == 0)) [
        | inl fine ↦ rw (fine, kept) (sync, (refl, refl))
        | inr fails ↦ rw (fails, kept) (sync, (refl, refl))
      ]
  sched_bore_update_handler_lem proc true written s laws sync =
      let (failure, sched_bore) = proc.dou8vec_minmax 0 1 s.sched_bore true written in
      elim (Bool-cases (failure == 0)) [
        | inl fine ↦
            let (least, most, same) =
              laws.bounded 0 1 s.sched_bore written (ground (arith, fine)) in
            let sysctls : BoreParams = record s.sysctls {
              enabled = if not (sched_bore == 0) then 1 else 0;
            } in
            rw fine (
              (ground (arith, most), most),
              (refl, same, readjust_all-AllReadjusted sysctls s.tasklist),
            )
        | inr fails ↦
            rw (fails, laws.failed 0 1 s.sched_bore written true fails) (sync, (refl, refl))
      ]
