-- ===== src/Cachy/Family/Hub.antt =====
-- patches/0002-bore-cachy.patch: which ancestor a new task inherits from, and what becomes of its
-- cache.
use linux_rustlux.Base.{
  ℕ, zero, suc, ◌+◌, ◌-◌, ◌≤◌, ◌<◌, Bool, true, false, leb, ◌≡◌, ◌⊎◌, inl, inr, refl, ap, ◌∙◌, sym,
  List, [], ◌∷◌, Option, none, some, length, get_elem?, set, Bool-cases, arith,
}
use linux_rustlux.Bore.Params.{BoreParams}
use linux_rustlux.Bore.Cache.{BoreBc}
use linux_rustlux.Cachy.Inherit.{bc_penalty, inherit_from_parent}
use linux_rustlux.Cachy.Inherit.Within.{Within, inherit_from_parent-Within}
use linux_rustlux.Cachy.Family.{
  count_children_upto2, descendants, Ancestor, hub_above, real_parent, drop, ancestor_hub,
  at_ancestor, inherit_from_hub, inherit_from_ancestor_hub,
}
use linux_rustlux.Cachy.Family.Bounded.{AncestorUpTo, LineUpTo, descendants-AllUpTo}

-- The first of the line that has more children than may be alone, which is 1 from the second
-- on, or that has no one above it.
abbrev pub IsHub : ℕ → List Ancestor → ℕ → Type 0
IsHub sole_child_count [] n = ⊥
IsHub sole_child_count (ancestor ∷ above) zero =
    (length above ≡ 0) ⊎ (sole_child_count < count_children_upto2 ancestor.children)
IsHub sole_child_count (ancestor ∷ above) (suc n) =
    (count_children_upto2 ancestor.children ≤ sole_child_count) × IsHub 1 above n

pub hub_above-IsHub :
    (line : List Ancestor) (sole_child_count : ℕ)
    → 0 < length line
    → IsHub sole_child_count line (hub_above line sole_child_count)
unfolding hub_above
hub_above-IsHub [] sole_child_count some_one = absurd (omega (arith, some_one))
hub_above-IsHub (ancestor ∷ []) sole_child_count some_one = inl refl
hub_above-IsHub (ancestor ∷ next ∷ above) sole_child_count some_one =
    let few = leb (count_children_upto2 ancestor.children) sole_child_count in
    elim (Bool-cases few) [
      | inl alone ↦ rw alone (ground (arith, alone), hub_above-IsHub (next ∷ above) 1 (omega arith))
      | inr many ↦ rw many (inr (ground (arith, many)))
    ]

-- The climb stays in the line.
IsHub-lt :
    (sole_child_count : ℕ) (line : List Ancestor) (n : ℕ)
    → IsHub sole_child_count line n
    → n < length line
IsHub-lt sole_child_count [] n hub = elim hub [ ]
IsHub-lt sole_child_count (ancestor ∷ above) zero hub = omega arith
IsHub-lt sole_child_count (ancestor ∷ above) (suc n) hub = omega (arith, IsHub-lt 1 above n hub.1)

at_ancestor_lem :
    (way : Ancestor → Option (BoreBc × ℕ)) (n : ℕ) (line : List Ancestor) {ancestor : Ancestor}
    {bc : BoreBc} {penalty : ℕ}
    → get_elem? line n ≡ some ancestor
    → way ancestor ≡ some (bc, penalty)
    → at_ancestor way n line ≡ some (set line n (record ancestor { subtree = bc }), penalty)
unfolding at_ancestor
at_ancestor_lem way n [] here read = cc
at_ancestor_lem way zero (first ∷ above) here read = ground arith
at_ancestor_lem way (suc n) (first ∷ above) here read =
    rw (at_ancestor_lem way n above here read) refl

line_entry :
    (limit n : ℕ) (line : List Ancestor)
    → n < length line
    → LineUpTo limit line
    → (ancestor : Ancestor) × (get_elem? line n ≡ some ancestor) × AncestorUpTo limit ancestor
line_entry limit n [] inside small = absurd (omega (arith, inside))
line_entry limit zero (ancestor ∷ above) inside small = (ancestor, refl, small.0)
line_entry limit (suc n) (ancestor ∷ above) inside small =
    line_entry limit n above (omega (arith, inside)) small.1

-- With CLONE_PARENT the climb begins at the parent of the parent, which may have 1 child.
abbrev pub IsHubOf : Bool → List Ancestor → ℕ → Type 0
IsHubOf false line n = IsHub 0 line n
IsHubOf true line n =
    let start = real_parent line in (start ≤ n) × IsHub 1 (drop start line) (n - start)

ancestor_hub-IsHubOf :
    (clone_parent : Bool) (line : List Ancestor)
    → 0 < length line
    → IsHubOf clone_parent line (ancestor_hub clone_parent line)
unfolding ancestor_hub
ancestor_hub-IsHubOf clone_parent [] some_one = absurd (omega (arith, some_one))
ancestor_hub-IsHubOf false (ancestor ∷ above) some_one =
    hub_above-IsHub (ancestor ∷ above) 0 some_one
ancestor_hub-IsHubOf true (ancestor ∷ []) some_one =
    (omega arith, hub_above-IsHub (ancestor ∷ []) 1 some_one)
ancestor_hub-IsHubOf true (ancestor ∷ next ∷ above) some_one =
    let n = hub_above (next ∷ above) 1 in
    let back : 1 + n - 1 ≡ n = omega arith in
    (omega arith, rw back (hub_above-IsHub (next ∷ above) 1 (omega arith)))

IsHubOf-lt :
    (clone_parent : Bool) (line : List Ancestor) (n : ℕ)
    → IsHubOf clone_parent line n
    → n < length line
IsHubOf-lt false line n hub = IsHub-lt 0 line n hub
IsHubOf-lt true [] n hub = elim hub.1 [ ]
IsHubOf-lt true (ancestor ∷ []) n hub = omega (arith, IsHub-lt 1 (ancestor ∷ []) (n - 0) hub.1)
IsHubOf-lt true (ancestor ∷ next ∷ above) n hub =
    omega (arith, IsHub-lt 1 (next ∷ above) (n - 1) hub.1)

pub ancestor_hub-lt :
    (clone_parent : Bool) (line : List Ancestor)
    → 0 < length line
    → ancestor_hub clone_parent line < length line
ancestor_hub-lt clone_parent line some_one =
    IsHubOf-lt clone_parent line (ancestor_hub clone_parent line)
      (ancestor_hub-IsHubOf clone_parent line some_one)

-- The hub reads and leaves its cache as `inherit_from_parent` would for its descendants.
inherit_from_hub-same :
    (sysctls : BoreParams) (now : ℕ) (hub : Ancestor)
    → inherit_from_hub sysctls now hub
      ≡ inherit_from_parent sysctls hub.subtree hub.penalty (descendants hub.children) now
unfolding inherit_from_hub inherit_from_parent
inherit_from_hub-same sysctls now hub = refl

pub inherit_from_hub-Within :
    (limit : ℕ) (sysctls : BoreParams) (now : ℕ) (hub : Ancestor)
    → limit ≤ 65535
    → AncestorUpTo limit hub
    → Within limit (inherit_from_hub sysctls now hub)
inherit_from_hub-Within limit sysctls now hub narrow small =
    rw (inherit_from_hub-same sysctls now hub) (
      inherit_from_parent-Within limit narrow sysctls hub.subtree hub.penalty
        (descendants hub.children) now small.cached small.small
        (descendants-AllUpTo limit hub.children small.below))

-- What is within a limit has been read.
read_of :
    (limit : ℕ) (read : Option (BoreBc × ℕ))
    → Within limit read
    → (bc : BoreBc) × (read ≡ some (bc, bc_penalty bc))
read_of limit none read = elim read [ ]
read_of limit (some (bc, penalty)) read = (bc, ap (λ p. some (bc, p)) read.1)

-- For 16-bit penalties and 64-bit caches, the hub in the line of ancestors is the first with
-- more children than may be alone (none for the parent of the new task, 1 further up or with
-- CLONE_PARENT, which begins one further up), or the last of the line; what is inherited is what
-- `inherit_from_parent` reads from the hub and the descendants that stand for its children, and
-- its cache alone is stored.
pub inherit_from_ancestor_hub_lem :
    (sysctls : BoreParams) (clone_parent : Bool) (line : List Ancestor) (now : ℕ)
    → 0 < length line
    → LineUpTo 65535 line
    → let n = ancestor_hub clone_parent line in
      IsHubOf clone_parent line n
      × ((hub : Ancestor) × (bc : BoreBc) × (get_elem? line n ≡ some hub)
          × (inherit_from_parent sysctls hub.subtree hub.penalty (descendants hub.children) now
              ≡ some (bc, bc_penalty bc))
          × (inherit_from_ancestor_hub sysctls clone_parent line now
              ≡ some (set line n (record hub { subtree = bc }), bc_penalty bc)))
unfolding inherit_from_ancestor_hub
inherit_from_ancestor_hub_lem sysctls clone_parent line now some_one small =
    let n = ancestor_hub clone_parent line in
    let is_hub = ancestor_hub-IsHubOf clone_parent line some_one in
    let (hub, here, hub_small) =
      line_entry 65535 n line (IsHubOf-lt clone_parent line n is_hub) small in
    let (bc, read) =
      read_of 65535 (inherit_from_hub sysctls now hub)
        (inherit_from_hub-Within 65535 sysctls now hub (omega arith) hub_small) in
    (
      is_hub,
      (
        hub,
        bc,
        here,
        sym (inherit_from_hub-same sysctls now hub) ∙ read,
        at_ancestor_lem (inherit_from_hub sysctls now) n line here read,
      ),
    )
