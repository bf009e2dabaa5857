-- ===== src/Cachy/Fork.antt =====
-- patches/0002-bore-cachy.patch: `task_fork_bore`, which gives a new task its context.
pub mod Inherits
pub mod NewTask
mod Tests
use linux_rustlux.Base.{
  ℕ, Bool, false, not, ltb, ◌==◌, ◌||◌, if◌then◌else◌, u16, List, Option, none, some,
}
use linux_rustlux.Bore.Params.{BoreParams}
use linux_rustlux.Cachy.{Task, update_penalty}
use linux_rustlux.Cachy.Inherit.{inherit_from_parent}
use linux_rustlux.Cachy.Family.{
  Ancestor, CloneFlags, Family, InheritKeys, direct_children, real_parent, at_ancestor,
  inherit_from_ancestor_hub, inherit_from_thread_group,
}

-- `inherit_from_parent`, with CLONE_PARENT from the parent of the parent.
unfoldable pub inherit_from_line :
    BoreParams → Bool → List Ancestor → ℕ → Option (List Ancestor × ℕ)
unfolding at_ancestor direct_children inherit_from_parent
inherit_from_line sysctls clone_parent line now =
    at_ancestor
      (λ parent.
        inherit_from_parent sysctls parent.subtree parent.penalty (direct_children parent.children)
          now)
      (if clone_parent then real_parent line else 0) line

-- The way that the flags and the keys choose; the family has its caches as this leaves them.
unfoldable pub inherit : BoreParams → InheritKeys → CloneFlags → Family → ℕ → Option (Family × ℕ)
unfolding inherit_from_thread_group inherit_from_ancestor_hub inherit_from_line
inherit sysctls keys clone_flags family now =
    if clone_flags.clone_thread
    then elim (inherit_from_thread_group sysctls family.leader now) [
      | none ↦ none
      | some (leader, penalty) ↦ some (record family { leader = leader }, penalty)
    ]
    else if keys.burst_inherit
    then (let way =
          if keys.burst_ancestor
          then inherit_from_ancestor_hub sysctls clone_flags.clone_parent family.line now
          else inherit_from_line sysctls clone_flags.clone_parent family.line now in
        elim way [
          | none ↦ none
          | some (line, penalty) ↦ some (record family { line = line }, penalty)
        ])
    else some (family, 0)

-- MAX_RT_PRIO is the kernel's.
module _ (max_rt_prio : ℕ) (sysctls : BoreParams) where
  -- The context of the new task, with the penalty that it inherits.
  unfoldable pub start_bore : Task → ℕ → Task
  unfolding update_penalty
  start_bore p inherited_penalty = update_penalty max_rt_prio sysctls (record p {
    bore = record p.bore {
      prev_penalty =
          if ltb p.bore.prev_penalty inherited_penalty
          then u16 inherited_penalty
          else p.bore.prev_penalty;
      curr_penalty = 0;
      burst_time = 0;
      stop_update = false;
      futex_waiting = false;
    };
  })

  -- `none` is a fault; whether the new task is eligible is the kernel's to say.
  unfoldable pub task_fork_bore :
      InheritKeys → Task → Bool → CloneFlags → Family → ℕ → Option (Family × Task)
  unfolding inherit start_bore
  task_fork_bore keys p is_eligible clone_flags family now =
      if sysctls.enabled == 0 || not is_eligible
      then some (family, p)
      else elim (inherit sysctls keys clone_flags family now) [
        | none ↦ none
        | some (family', penalty) ↦ some (family', start_bore p penalty)
      ]
