-- ===== src/Cachy/Family.antt =====
-- patches/0002-bore-cachy.patch: the relatives of a new task, and the three ways in which it
-- inherits a penalty from their caches. The line of a task begins with itself and goes up by
-- `real_parent`, to the task that is its own.
pub mod Bounded
pub mod Hub
use linux_rustlux.Base.{
  ℕ, zero, suc, ◌+◌, Bool, true, false, leb, ◌==◌, if◌then◌else◌, List, [], ◌∷◌, Option, none, some,
}
use linux_rustlux.Bore.Params.{BoreParams}
use linux_rustlux.Bore.Cache.{BoreBc}
use linux_rustlux.Cachy.Inherit.{
  Child, burst_cache_expired, update_burst_cache, scan_children, read_back, inherit_from_parent,
}

-- A task below the new one's ancestors, by what is read of it: its penalty, whether it is
-- eligible, and its children.
mutual
  pub data Process : Type 0 where
    process : ℕ → Bool → Processes → Process

  pub data Processes : Type 0 where
    no_more : Processes
    child : Process → Processes → Processes

unfoldable pub count_children_upto2 : Processes → ℕ
count_children_upto2 no_more = 0
count_children_upto2 (child first no_more) = 1
count_children_upto2 (child first (child second others)) = 2

-- `for_each_child_task`, by what `scan_children` reads.
unfoldable pub direct_children : Processes → List Child
direct_children no_more = []
direct_children (child (process penalty is_eligible below) others) =
    (record { penalty = penalty; is_eligible = is_eligible }) ∷ direct_children others

-- The descent from a child, for as long as there is exactly one child.
unfoldable pub descendant : Process → Child
descendant (process penalty is_eligible no_more) = record {
  penalty = penalty;
  is_eligible = is_eligible;
}
descendant (process penalty is_eligible (child only no_more)) = descendant only
descendant (process penalty is_eligible (child first (child second others))) = record {
  penalty = penalty;
  is_eligible = is_eligible;
}

unfoldable pub descendants : Processes → List Child
unfolding descendant
descendants no_more = []
descendants (child direct_child others) = descendant direct_child ∷ descendants others

pub record Ancestor : Type 0 where
  pub subtree : BoreBc
  pub penalty : ℕ
  pub children : Processes

-- The climb to the hub, as the number of steps from the first of the line.
unfoldable pub hub_above : List Ancestor → ℕ → ℕ
unfolding count_children_upto2
hub_above [] sole_child_count = 0
hub_above (ancestor ∷ []) sole_child_count = 0
hub_above (ancestor ∷ next ∷ above) sole_child_count =
    let higher = suc (hub_above (next ∷ above) 1) in
    if leb (count_children_upto2 ancestor.children) sole_child_count then higher else 0

-- `real_parent` of the first of the line, as the number of steps.
abbrev pub real_parent : List Ancestor → ℕ
real_parent (ancestor ∷ next ∷ above) = 1
real_parent line = 0

abbrev pub drop : ℕ → List Ancestor → List Ancestor
drop zero line = line
drop (suc n) [] = []
drop (suc n) (ancestor ∷ above) = drop n above

-- Where the hub is in the line; with CLONE_PARENT the climb begins at the parent of the parent.
unfoldable pub ancestor_hub : Bool → List Ancestor → ℕ
unfolding hub_above
ancestor_hub clone_parent line =
    if clone_parent
    then real_parent line + hub_above (drop (real_parent line) line) 1
    else hub_above line 0

-- An ancestor with the cache that an inheritance from it leaves; `none` is a fault.
unfoldable pub at_ancestor :
    (Ancestor → Option (BoreBc × ℕ)) → ℕ → List Ancestor → Option (List Ancestor × ℕ)
at_ancestor inherit n [] = none
at_ancestor inherit zero (ancestor ∷ above) = elim (inherit ancestor) [
  | none ↦ none
  | some (bc, penalty) ↦ some ((record ancestor { subtree = bc }) ∷ above, penalty)
]
at_ancestor inherit (suc n) (ancestor ∷ above) = elim (at_ancestor inherit n above) [
  | none ↦ none
  | some (above', penalty) ↦ some (ancestor ∷ above', penalty)
]

-- From the hub, once it is found.
unfoldable pub inherit_from_hub : BoreParams → ℕ → Ancestor → Option (BoreBc × ℕ)
unfolding descendants burst_cache_expired update_burst_cache scan_children read_back
inherit_from_hub sysctls now hub =
    let (count, total) = scan_children (descendants hub.children) 0 0 0 in
    if burst_cache_expired sysctls hub.subtree now
    then read_back (update_burst_cache hub.penalty count total now)
    else read_back (some hub.subtree)

unfoldable pub inherit_from_ancestor_hub :
    BoreParams → Bool → List Ancestor → ℕ → Option (List Ancestor × ℕ)
unfolding ancestor_hub at_ancestor
inherit_from_ancestor_hub sysctls clone_parent line now =
    at_ancestor (inherit_from_hub sysctls now) (ancestor_hub clone_parent line) line

-- The thread group of the new task's maker.
pub record ThreadGroup : Type 0 where
  pub group : BoreBc
  pub leader_penalty : ℕ
  pub threads : List Child

unfoldable pub inherit_from_thread_group : BoreParams → ThreadGroup → ℕ → Option (ThreadGroup × ℕ)
unfolding burst_cache_expired update_burst_cache scan_children read_back
inherit_from_thread_group sysctls leader now =
    let (count, total) = scan_children leader.threads 0 0 0 in
    let read =
      if burst_cache_expired sysctls leader.group now
      then read_back (update_burst_cache leader.leader_penalty count total now)
      else read_back (some leader.group) in
    elim read [ none ↦ none | some (bc, penalty) ↦ some (record leader { group = bc }, penalty) ]

-- The clone flags, as far as they are read.
pub record CloneFlags : Type 0 where
  pub clone_thread : Bool
  pub clone_parent : Bool

pub record Family : Type 0 where
  pub leader : ThreadGroup
  pub line : List Ancestor

-- `sched_burst_inherit_key` and `sched_burst_ancestor_key`.
pub record InheritKeys : Type 0 where
  pub burst_inherit : Bool
  pub burst_ancestor : Bool

unfoldable pub update_inherit_type : ℕ → InheritKeys → InheritKeys
update_inherit_type sched_burst_inherit_type keys =
    if sched_burst_inherit_type == 1
    then record { burst_inherit = true; burst_ancestor = false }
    else if sched_burst_inherit_type == 2
    then record { burst_inherit = true; burst_ancestor = true }
    else record keys { burst_inherit = false }
