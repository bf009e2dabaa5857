-- ===== src/Cachy/Family/Bounded.antt =====
-- patches/0002-bore-cachy.patch: penalties in a family stay within a limit, whichever cache is
-- inherited from.
use linux_rustlux.Base.{
  ℕ, zero, suc, ◌≤◌, ◌<◌, ◌≡◌, refl, ap, List, [], ◌∷◌, Option, none, some, length, arith,
}
use linux_rustlux.Bore.Params.{BoreParams}
use linux_rustlux.Bore.Cache.{BoreBc}
use linux_rustlux.Cachy.Inherit.{inherit_from_parent}
use linux_rustlux.Cachy.Inherit.Scan.{AllUpTo}
use linux_rustlux.Cachy.Inherit.Within.{IsCache, Within, inherit_from_parent-Within}
use linux_rustlux.Cachy.Family.{
  Process, process, Processes, no_more, child, direct_children, descendant, descendants, Ancestor,
  at_ancestor, ThreadGroup, inherit_from_thread_group,
}

unfoldable mutual
  pub ProcessUpTo : ℕ → Process → Type 0
  ProcessUpTo limit (process penalty is_eligible below) =
      (penalty ≤ limit) × ProcessesUpTo limit below

  pub ProcessesUpTo : ℕ → Processes → Type 0
  ProcessesUpTo limit no_more = Unit
  ProcessesUpTo limit (child first others) = ProcessUpTo limit first × ProcessesUpTo limit others

pub record AncestorUpTo (limit : ℕ) (ancestor : Ancestor) : Type 0 where
  pub cached : IsCache limit ancestor.subtree
  pub small : ancestor.penalty ≤ limit
  pub below : ProcessesUpTo limit ancestor.children

abbrev pub LineUpTo : ℕ → List Ancestor → Type 0
LineUpTo limit [] = Unit
LineUpTo limit (ancestor ∷ above) = AncestorUpTo limit ancestor × LineUpTo limit above

pub record GroupUpTo (limit : ℕ) (leader : ThreadGroup) : Type 0 where
  pub cached : IsCache limit leader.group
  pub small : leader.leader_penalty ≤ limit
  pub members : AllUpTo limit leader.threads

-- It did not fail, and the line and the penalty that it gives are within the limit; the line is
-- as long as it was.
abbrev pub LineWithin : ℕ → ℕ → Option (List Ancestor × ℕ) → Type 0
LineWithin limit size none = ⊥
LineWithin limit size (some (line, penalty)) =
    LineUpTo limit line × (penalty ≤ limit) × (length line ≡ size)

abbrev pub GroupWithin : ℕ → Option (ThreadGroup × ℕ) → Type 0
GroupWithin limit none = ⊥
GroupWithin limit (some (leader, penalty)) = GroupUpTo limit leader × (penalty ≤ limit)

module _ (limit : ℕ) where
  pub direct_children-AllUpTo :
      (children : Processes)
      → ProcessesUpTo limit children
      → AllUpTo limit (direct_children children)
  unfolding direct_children ProcessesUpTo
  direct_children-AllUpTo no_more small = tt
  direct_children-AllUpTo (child (process penalty is_eligible below) others) small =
      (small.0.0, direct_children-AllUpTo others small.1)

  descendant-le :
      (direct_child : Process)
      → ProcessUpTo limit direct_child
      → (descendant direct_child).penalty ≤ limit
  unfolding descendant ProcessUpTo
  descendant-le (process penalty is_eligible no_more) small = small.0
  descendant-le (process penalty is_eligible (child only no_more)) small =
      descendant-le only small.1.0
  descendant-le (process penalty is_eligible (child first (child second others))) small = small.0

  pub descendants-AllUpTo :
      (children : Processes) → ProcessesUpTo limit children → AllUpTo limit (descendants children)
  unfolding descendants ProcessesUpTo
  descendants-AllUpTo no_more small = tt
  descendants-AllUpTo (child direct_child others) small =
      (descendant-le direct_child small.0, descendants-AllUpTo others small.1)

  -- One step of the way up is carried back.
  carried :
      (size : ℕ) (ancestor : Ancestor) (done : Option (List Ancestor × ℕ))
      → AncestorUpTo limit ancestor
      → LineWithin limit size done
      → LineWithin limit
          (suc size)
          (elim done [ none ↦ none | some (above', penalty) ↦ some (ancestor ∷ above', penalty) ])
  carried size ancestor none small done = elim done [ ]
  carried size ancestor (some (above, penalty)) small done =
      ((small, done.0), done.1, ap suc done.2)

  cached_anew :
      (ancestor : Ancestor) (above : List Ancestor) (read : Option (BoreBc × ℕ))
      → AncestorUpTo limit ancestor
      → LineUpTo limit above
      → Within limit read
      → LineWithin limit (suc (length above)) (elim read [
        | none ↦ none
        | some (bc, penalty) ↦ some ((record ancestor { subtree = bc }) ∷ above, penalty)
      ])
  cached_anew ancestor above none small rest read = elim read [ ]
  cached_anew ancestor above (some (bc, penalty)) small rest read = (
    (record { cached = read.0; small = small.small; below = small.below }, rest),
    omega (arith, read.0.1, read.1),
    refl,
  )

  pub at_ancestor-LineWithin :
      (way : Ancestor → Option (BoreBc × ℕ))
      → ((ancestor : Ancestor) → AncestorUpTo limit ancestor → Within limit (way ancestor))
      → (n : ℕ) (line : List Ancestor) → n < length line
      → LineUpTo limit line
      → LineWithin limit (length line) (at_ancestor way n line)
  unfolding at_ancestor
  at_ancestor-LineWithin way kept n [] inside small = absurd (omega (arith, inside))
  at_ancestor-LineWithin way kept zero (ancestor ∷ above) inside small =
      cached_anew ancestor above (way ancestor) small.0 small.1 (kept ancestor small.0)
  at_ancestor-LineWithin way kept (suc n) (ancestor ∷ above) inside small =
      carried (length above) ancestor (at_ancestor way n above) small.0
        (at_ancestor-LineWithin way kept n above (omega (arith, inside)) small.1)

  thread_cached :
      (leader : ThreadGroup) (read : Option (BoreBc × ℕ))
      → GroupUpTo limit leader
      → Within limit read
      → GroupWithin limit (elim read [
        | none ↦ none
        | some (bc, penalty) ↦ some (record leader { group = bc }, penalty)
      ])
  thread_cached leader none small read = elim read [ ]
  thread_cached leader (some (bc, penalty)) small read = (
    record { cached = read.0; small = small.small; members = small.members },
    omega (arith, read.0.1, read.1),
  )

  pub inherit_from_thread_group-GroupWithin :
      (sysctls : BoreParams) (leader : ThreadGroup) (now : ℕ)
      → limit ≤ 65535
      → GroupUpTo limit leader
      → GroupWithin limit (inherit_from_thread_group sysctls leader now)
  unfolding inherit_from_thread_group inherit_from_parent
  inherit_from_thread_group-GroupWithin sysctls leader now narrow small =
      let read =
        inherit_from_parent sysctls leader.group leader.leader_penalty leader.threads now in
      thread_cached leader read small (
        inherit_from_parent-Within limit narrow sysctls leader.group leader.leader_penalty
          leader.threads now small.cached small.small small.members)
