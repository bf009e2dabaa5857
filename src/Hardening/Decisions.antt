-- ===== src/Hardening/Decisions.antt =====
-- rust/rustlux_security/src/hardening_ffi.rs: the decisions of the FFI's checks.
use linux_rustlux.Base.{ℕ, suc, ◌/◌, ◌^◌, ◌≡◌, pos, arith}
use linux_rustlux.Bits.And.{and-one}
use linux_rustlux.Bits.Digit.{digit}
use linux_rustlux.Capabilities.{has}
use linux_rustlux.Hardening.{perf_event_allowed, ffi_tiocsti_allowed}

-- The FFI checks read one bit of the effective mask: perf_event at a positive level bit 38, and
-- TIOCSTI bit 21 on every terminal.
pub ffi_checks :
    (cap_effective level same_tty : ℕ)
    → (perf_event_allowed cap_effective (pos (suc level)) ≡ digit cap_effective 38)
      × (ffi_tiocsti_allowed cap_effective same_tty ≡ digit cap_effective 21)
unfolding perf_event_allowed ffi_tiocsti_allowed has
ffi_checks cap_effective level same_tty = (
  ground (arith, and-one (cap_effective / 2 ^ 38)),
  ground (arith, and-one (cap_effective / 2 ^ 21)),
)
