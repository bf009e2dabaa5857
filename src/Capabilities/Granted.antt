-- ===== src/Capabilities/Granted.antt =====
-- rust/rustlux_security/src/capabilities.rs: the decisions on perf_event and TIOCSTI for a set of
-- raw bits to which capabilities were added and from which they were taken away since.
use linux_rustlux.Base.{
  ℕ, ◌≡◌, ◌⊎◌, ◌↔◌, ◌==◌, Bool, true, false, if◌then◌else◌, ℤ, pos, List, [], ◌∷◌, arith, sym,
}
use linux_rustlux.Bits.Digit.{digit}
use linux_rustlux.Capabilities.{
  Cap, cap_number, sys_admin, perf_mon, CapSet, from_raw, has, with_cap, without_cap, perf_allowed,
  tiocsti_allowed,
}
use linux_rustlux.Capabilities.Sets.{has-digit, has-with_without}
use linux_rustlux.Capabilities.Checks.{◌≤ℤ◌, perf_allowed_iff, tiocsti_allowed_iff}

pub data Change : Type 0 where
  granted taken : (cap : Cap) → Change

-- The set after the changes, the latest of them first.
unfoldable pub changed : CapSet → List Change → CapSet
changed caps [] = caps
changed caps (granted cap ∷ xs) = with_cap (changed caps xs) cap
changed caps (taken cap ∷ xs) = without_cap (changed caps xs) cap

-- The latest change of a capability, or else its bit at first, says whether it is held.
abbrev pub held : ℕ → Cap → List Change → Bool
held mask cap [] = digit mask (cap_number cap) == 1
held mask cap (granted other ∷ xs) =
    if cap_number other == cap_number cap then true else held mask cap xs
held mask cap (taken other ∷ xs) =
    if cap_number other == cap_number cap then false else held mask cap xs

has-changed :
    (mask : ℕ) (cap : Cap) (xs : List Change)
    → has (changed (from_raw mask) xs) cap ≡ held mask cap xs
unfolding changed
has-changed mask cap [] = has-digit (from_raw mask) cap
has-changed mask cap (granted other ∷ xs) =
    ground
      (arith, (has-with_without (changed (from_raw mask) xs) other cap).0, has-changed mask cap xs)
has-changed mask cap (taken other ∷ xs) =
    ground
      (arith, (has-with_without (changed (from_raw mask) xs) other cap).1, has-changed mask cap xs)

-- For a set of any raw bits to which capabilities were added and from which they were taken away
-- in any order, perf_event is allowed exactly at a level of at most 0 or if CAP_PERFMON is held,
-- and TIOCSTI exactly on the own terminal where it is not restricted or if CAP_SYS_ADMIN is
-- held: a capability is held if the latest change of it added it, or, without a change of it, if
-- the raw bits have bit 38 or 21.
pub changed-allowed_iff :
    (mask : ℕ) (xs : List Change) (paranoid : ℤ) (restrict same_tty : Bool)
    → let caps = changed (from_raw mask) xs in
      ((perf_allowed caps paranoid ≡ true) ↔ ((paranoid ≤ℤ pos 0) ⊎ (held mask perf_mon xs ≡ true)))
      × ((tiocsti_allowed caps restrict same_tty ≡ true)
          ↔ (((same_tty ≡ true) × (restrict ≡ false)) ⊎ (held mask sys_admin xs ≡ true)))
changed-allowed_iff mask xs paranoid restrict same_tty =
    rw (sym (has-changed mask perf_mon xs), sym (has-changed mask sys_admin xs))
      (
        perf_allowed_iff (changed (from_raw mask) xs) paranoid,
        tiocsti_allowed_iff (changed (from_raw mask) xs) restrict same_tty,
      )
