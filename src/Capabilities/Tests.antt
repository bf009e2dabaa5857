-- ===== src/Capabilities/Tests.antt =====
-- rust/rustlux_security/src/capabilities.rs: the theorem at a concrete set.
use linux_rustlux.Base.{◌≡◌, ◌⊎◌, ◌↔◌, true, false, pos, [], ◌∷◌}
use linux_rustlux.Capabilities.{sys_admin, perf_mon, from_raw, perf_allowed, tiocsti_allowed}
use linux_rustlux.Capabilities.Checks.{◌≤ℤ◌}
use linux_rustlux.Capabilities.Granted.{granted, taken, changed, changed-allowed_iff}

-- CAP_SYS_ADMIN, bit 21, is taken away before CAP_PERFMON is given.
changed-allowed_iff_example :
    let xs = granted perf_mon ∷ taken sys_admin ∷ [] in
    let caps = changed (from_raw 0x200000) xs in
    ((perf_allowed caps (pos 2) ≡ true) ↔ ((pos 2 ≤ℤ pos 0) ⊎ (true ≡ true)))
    × ((tiocsti_allowed caps true true ≡ true)
        ↔ (((true ≡ true) × (true ≡ false)) ⊎ (false ≡ true)))
changed-allowed_iff_example =
    changed-allowed_iff 0x200000 (granted perf_mon ∷ taken sys_admin ∷ []) (pos 2) true true
