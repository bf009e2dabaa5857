-- ===== src/Capabilities/Checks.antt =====
-- rust/rustlux_security/src/capabilities.rs: who may use perf_event and TIOCSTI.
use linux_rustlux.Base.{
  zero, suc, ◌≤◌, ◌≡◌, refl, ◌⊎◌, inl, inr, ◌↔◌, Bool, true, false, ℤ, pos, negsuc, arith,
}
use linux_rustlux.Capabilities.{sys_admin, perf_mon, CapSet, has, perf_allowed, tiocsti_allowed}

-- `a <= b` on signed integers.
abbrev pub ◌≤ℤ◌ : ℤ → ℤ → Type 0
◌≤ℤ◌ (pos a) (pos b) = a ≤ b
◌≤ℤ◌ (pos a) (negsuc b) = ⊥
◌≤ℤ◌ (negsuc a) (pos b) = Unit {0}
◌≤ℤ◌ (negsuc a) (negsuc b) = b ≤ a

infix 50 ◌≤ℤ◌
-- Perf_event is allowed at a level of at most 0 to everyone, and above that to CAP_PERFMON
-- alone, whatever the level.
pub perf_allowed_iff :
    (caps : CapSet) (paranoid : ℤ)
    → (perf_allowed caps paranoid ≡ true) ↔ ((paranoid ≤ℤ pos 0) ⊎ (has caps perf_mon ≡ true))
unfolding perf_allowed
perf_allowed_iff caps (negsuc n) = (λ h. inl tt, λ h. refl)
perf_allowed_iff caps (pos zero) = (λ h. inl (omega arith), λ h. refl)
perf_allowed_iff caps (pos (suc n)) = (λ h. inr h, λ h. ground arith)

-- TIOCSTI is allowed to CAP_SYS_ADMIN always, and to others on their own terminal if it is not
-- restricted.
pub tiocsti_allowed_iff :
    (caps : CapSet) (restrict same_tty : Bool)
    → (tiocsti_allowed caps restrict same_tty ≡ true)
      ↔ (((same_tty ≡ true) × (restrict ≡ false)) ⊎ (has caps sys_admin ≡ true))
unfolding tiocsti_allowed
tiocsti_allowed_iff caps restrict same_tty = (λ h. ground arith, λ h. ground arith)
