-- ===== src/Cachy/Fork/Inherits.antt =====
-- patches/0002-bore-cachy.patch: every way to inherit leaves the family within its limit, and
-- gives a penalty within it.
use linux_rustlux.Base.{
  ℕ, ◌≤◌, ◌<◌, Bool, if◌then◌else◌, List, [], ◌∷◌, Option, none, some, length, either_way, arith,
}
use linux_rustlux.Bore.Params.{BoreParams}
use linux_rustlux.Cachy.Inherit.{inherit_from_parent}
use linux_rustlux.Cachy.Inherit.Within.{inherit_from_parent-Within}
use linux_rustlux.Cachy.Family.{
  Ancestor, CloneFlags, Family, ThreadGroup, InheritKeys, direct_children, real_parent,
  ancestor_hub, inherit_from_hub, inherit_from_ancestor_hub, inherit_from_thread_group,
}
use linux_rustlux.Cachy.Family.Bounded.{
  LineUpTo, GroupUpTo, LineWithin, GroupWithin, direct_children-AllUpTo, at_ancestor-LineWithin,
  inherit_from_thread_group-GroupWithin,
}
use linux_rustlux.Cachy.Family.Hub.{ancestor_hub-lt, inherit_from_hub-Within}
use linux_rustlux.Cachy.Fork.{inherit_from_line, inherit}

-- A new task has a parent.
pub record FamilyUpTo (limit : ℕ) (family : Family) : Type 0 where
  pub group : GroupUpTo limit family.leader
  pub ancestors : LineUpTo limit family.line
  pub has_parent : 0 < length family.line

abbrev pub FamilyWithin : ℕ → Option (Family × ℕ) → Type 0
FamilyWithin limit none = ⊥
FamilyWithin limit (some (family, penalty)) = FamilyUpTo limit family × (penalty ≤ limit)

real_parent-lt : (line : List Ancestor) → 0 < length line → real_parent line < length line
real_parent-lt [] some_one = some_one
real_parent-lt (ancestor ∷ []) some_one = some_one
real_parent-lt (ancestor ∷ next ∷ above) some_one = omega arith

module _ (limit : ℕ) (narrow : limit ≤ 65535) (sysctls : BoreParams) (now : ℕ) where
  hub-LineWithin :
      (clone_parent : Bool) (line : List Ancestor)
      → 0 < length line
      → LineUpTo limit line
      → LineWithin limit (length line) (inherit_from_ancestor_hub sysctls clone_parent line now)
  unfolding inherit_from_ancestor_hub
  hub-LineWithin clone_parent line some_one small =
      at_ancestor-LineWithin limit (inherit_from_hub sysctls now)
        (λ hub within. inherit_from_hub-Within limit sysctls now hub narrow within)
        (ancestor_hub clone_parent line) line (ancestor_hub-lt clone_parent line some_one) small

  parent-LineWithin :
      (clone_parent : Bool) (line : List Ancestor)
      → 0 < length line
      → LineUpTo limit line
      → LineWithin limit (length line) (inherit_from_line sysctls clone_parent line now)
  unfolding inherit_from_line
  parent-LineWithin clone_parent line some_one small =
      at_ancestor-LineWithin limit
        (λ parent.
          inherit_from_parent sysctls parent.subtree parent.penalty
            (direct_children parent.children) now)
        (λ parent within.
          inherit_from_parent-Within limit narrow sysctls parent.subtree parent.penalty
            (direct_children parent.children) now within.cached within.small
            (direct_children-AllUpTo limit parent.children within.below))
        (if clone_parent then real_parent line else 0) line
        (either_way (λ n. n < length line) clone_parent (real_parent-lt line some_one) some_one)
        small

  with_leader :
      (family : Family) (way : Option (ThreadGroup × ℕ))
      → FamilyUpTo limit family
      → GroupWithin limit way
      → FamilyWithin limit (elim way [
        | none ↦ none
        | some (leader, penalty) ↦ some (record family { leader = leader }, penalty)
      ])
  with_leader family none small way = elim way [ ]
  with_leader family (some (leader, penalty)) small way =
      (record { group = way.0; ancestors = small.ancestors; has_parent = small.has_parent }, way.1)

  with_line :
      (family : Family) (way : Option (List Ancestor × ℕ))
      → FamilyUpTo limit family
      → LineWithin limit (length family.line) way
      → FamilyWithin limit (elim way [
        | none ↦ none
        | some (line, penalty) ↦ some (record family { line = line }, penalty)
      ])
  with_line family none small way = elim way [ ]
  with_line family (some (line, penalty)) small way = (
    record {
      group = small.group;
      ancestors = way.0;
      has_parent = omega (arith, way.2, small.has_parent);
    },
    way.1,
  )

  pub inherit-FamilyWithin :
      (keys : InheritKeys) (clone_flags : CloneFlags) (family : Family)
      → FamilyUpTo limit family
      → FamilyWithin limit (inherit sysctls keys clone_flags family now)
  unfolding inherit
  inherit-FamilyWithin keys clone_flags family small =
      let up = clone_flags.clone_parent in
      let by_hub = inherit_from_ancestor_hub sysctls up family.line now in
      let by_parent = inherit_from_line sysctls up family.line now in
      let line =
        either_way (LineWithin limit (length family.line)) keys.burst_ancestor
          (hub-LineWithin up family.line small.has_parent small.ancestors)
          (parent-LineWithin up family.line small.has_parent small.ancestors) in
      either_way (FamilyWithin limit) clone_flags.clone_thread
        (with_leader family (inherit_from_thread_group sysctls family.leader now) small (
          inherit_from_thread_group-GroupWithin limit sysctls family.leader now narrow small.group))
        (either_way (FamilyWithin limit) keys.burst_inherit
          (with_line family (if keys.burst_ancestor then by_hub else by_parent) small line)
          (small, omega arith))
