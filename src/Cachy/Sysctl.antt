-- ===== src/Cachy/Sysctl.antt =====
-- patches/0002-bore-cachy.patch: the handler of the sysctl sched_bore, which turns BORE on and off.
pub mod Switched
pub mod Off
pub mod Contexts
pub mod Turns
mod Tests
use linux_rustlux.Base.{
  ℕ, Bool, true, false, not, ◌==◌, ◌||◌, ◌≤◌, ◌≡◌, if◌then◌else◌, List, [], ◌∷◌,
}
use linux_rustlux.Bore.Params.{BoreParams}
use linux_rustlux.Cachy.{Task, effective_prio_bore, reweight_task_by_prio}

-- The tasks that share a leader, which is the only one of them that `for_each_process` meets.
-- Whether it is eligible is the kernel's to say.
pub record TaskGroup : Type 0 where
  pub leader : Task
  pub is_eligible : Bool
  pub threads : List Task

-- `sched_bore_key` is `enabled` of the sysctls.
pub record Bore : Type 0 where
  pub sched_bore : ℕ
  pub sysctls : BoreParams
  pub tasklist : List TaskGroup

-- What `proc_dou8vec_minmax` gives for the least and the most allowed, the old value, whether it is
-- a write, and what is written: its result and the new value.
pub record Proc : Type 0 where
  pub dou8vec_minmax : ℕ → ℕ → ℕ → Bool → ℕ → ℕ × ℕ

-- A call that fails and a read leave the value; a write that does not fail leaves the one written,
-- which is in bounds.
pub record IsMinmax (proc : Proc) : Type 0 where
  pub kept :
      (least most old written : ℕ) → (proc.dou8vec_minmax least most old false written).1 ≡ old
  pub failed :
      (least most old written : ℕ) (write : Bool)
      → ((proc.dou8vec_minmax least most old write written).0 == 0) ≡ false
      → (proc.dou8vec_minmax least most old write written).1 ≡ old
  pub bounded :
      (least most old written : ℕ)
      → (proc.dou8vec_minmax least most old true written).0 ≡ 0
      → (least ≤ (proc.dou8vec_minmax least most old true written).1)
        × ((proc.dou8vec_minmax least most old true written).1 ≤ most)
        × ((proc.dou8vec_minmax least most old true written).1 ≡ written)

module _ (max_rt_prio : ℕ) where
  unfoldable pub readjust : BoreParams → TaskGroup → TaskGroup
  unfolding effective_prio_bore reweight_task_by_prio
  readjust sysctls tasks = if not tasks.is_eligible then tasks else record tasks {
    leader =
        reweight_task_by_prio max_rt_prio sysctls tasks.leader
          (effective_prio_bore max_rt_prio sysctls tasks.leader);
  }

  unfoldable pub readjust_all_task_weights : BoreParams → List TaskGroup → List TaskGroup
  unfolding readjust
  readjust_all_task_weights sysctls [] = []
  readjust_all_task_weights sysctls (tasks ∷ tasklist) =
      readjust sysctls tasks ∷ readjust_all_task_weights sysctls tasklist

  unfoldable pub sched_bore_update_handler : Proc → Bool → ℕ → Bore → Bore × ℕ
  unfolding readjust_all_task_weights
  sched_bore_update_handler proc write written s =
      let (ret, sched_bore) = proc.dou8vec_minmax 0 1 s.sched_bore write written in
      let sysctls : BoreParams = record s.sysctls {
        enabled = if not (sched_bore == 0) then 1 else 0;
      } in
      if not (ret == 0) || not write then (record s { sched_bore = sched_bore }, ret) else (
        record {
          sched_bore = sched_bore;
          sysctls = sysctls;
          tasklist = readjust_all_task_weights sysctls s.tasklist;
        },
        0,
      )
