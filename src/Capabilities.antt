-- ===== src/Capabilities.antt =====
-- rust/rustlux_security/src/capabilities.rs: sets of capabilities as 64-bit masks, and the two
-- checks that read them.
pub mod Sets
pub mod Checks
pub mod Granted
mod UnitTests
mod Tests
use linux_rustlux.Base.{
  ℕ, zero, suc, ◌-◌, ◌*◌, ◌/◌, ◌^◌, bit_and, bit_or, Bool, true, false, not, ◌&&◌, ◌==◌,
  if◌then◌else◌, u64, ◌<<<◌, ◌>>>◌, ℤ, pos, negsuc,
}

pub data Cap : Type 0 where
  sys_admin perf_mon dac_override dac_read_search net_admin sys_module : Cap

-- `cap as u64`
abbrev pub cap_number : Cap → ℕ
cap_number sys_admin = 21
cap_number perf_mon = 38
cap_number dac_override = 1
cap_number dac_read_search = 2
cap_number net_admin = 12
cap_number sys_module = 16

pub record CapSet : Type 0 where
  pub mask : ℕ

abbrev pub empty : CapSet
empty = record { mask = 0 }

abbrev pub full : CapSet
full = record { mask = 2 ^ 64 - 1 }

abbrev pub from_raw : ℕ → CapSet
from_raw raw = record { mask = raw }

unfoldable pub has : CapSet → Cap → Bool
has caps cap = bit_and (caps.mask >>> cap_number cap) 1 == 1

unfoldable pub with_cap : CapSet → Cap → CapSet
with_cap caps cap = record { mask = bit_or caps.mask (u64 (1 <<< cap_number cap)) }

-- `!x` on 64 bits is 2 ^ 64 - 1 - x.
unfoldable pub without_cap : CapSet → Cap → CapSet
without_cap caps cap = record { mask = bit_and caps.mask (2 ^ 64 - 1 - u64 (1 <<< cap_number cap)) }

unfoldable pub perf_allowed : CapSet → ℤ → Bool
perf_allowed caps (negsuc n) = true
perf_allowed caps (pos zero) = true
perf_allowed caps (pos (suc n)) = has caps perf_mon

unfoldable pub tiocsti_allowed : CapSet → Bool → Bool → Bool
tiocsti_allowed caps restrict same_tty =
    if same_tty && not restrict then true else has caps sys_admin
