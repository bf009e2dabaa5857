-- ===== src/Hardening.antt =====
-- rust/rustlux_security/src/hardening.rs and hardening_ffi.rs: the configuration with its three
-- presets, and the decisions that C code asks for.
pub mod Order
pub mod Decisions
mod UnitTests
mod Tests
use linux_rustlux.Base.{ℕ, Bool, true, false, not, ◌==◌, if◌then◌else◌, bit_of, ℤ, pos}
use linux_rustlux.Capabilities.{from_raw, perf_allowed, tiocsti_allowed}

pub record FsProtection : Type 0 where
  pub symlinks : ℕ
  pub hardlinks : ℕ
  pub fifos : ℕ
  pub regular : ℕ

pub record AslrConfig : Type 0 where
  pub mmap_rnd_bits : ℕ
  pub mmap_rnd_compat_bits : ℕ
  pub kstack_offset : Bool

pub record TtyConfig : Type 0 where
  pub tiocsti_restrict : Bool
  pub legacy_tiocsti : Bool

pub record UsbConfig : Type 0 where
  pub deny_new_usb : Bool

pub record PerfConfig : Type 0 where
  pub paranoid : ℤ

pub record OverlayFsConfig : Type 0 where
  pub unprivileged_mounts : Bool

abbrev pub fs_default : FsProtection
fs_default = record { symlinks = 1; hardlinks = 1; fifos = 2; regular = 2 }

abbrev pub aslr_default : AslrConfig
aslr_default = record { mmap_rnd_bits = 32; mmap_rnd_compat_bits = 16; kstack_offset = true }

abbrev pub tty_default : TtyConfig
tty_default = record { tiocsti_restrict = true; legacy_tiocsti = false }

abbrev pub usb_default : UsbConfig
usb_default = record { deny_new_usb = false }

abbrev pub perf_default : PerfConfig
perf_default = record { paranoid = pos 3 }

abbrev pub overlayfs_default : OverlayFsConfig
overlayfs_default = record { unprivileged_mounts = false }

pub record HardeningConfig : Type 0 where
  pub fs : FsProtection
  pub aslr : AslrConfig
  pub tty : TtyConfig
  pub usb : UsbConfig
  pub perf : PerfConfig
  pub overlayfs : OverlayFsConfig

-- The derived `Default`.
abbrev pub config_default : HardeningConfig
config_default = record {
  fs = fs_default;
  aslr = aslr_default;
  tty = tty_default;
  usb = usb_default;
  perf = perf_default;
  overlayfs = overlayfs_default;
}

unfoldable pub maximum : HardeningConfig
maximum = record {
  fs = record { symlinks = 1; hardlinks = 1; fifos = 2; regular = 2 };
  aslr = record { mmap_rnd_bits = 32; mmap_rnd_compat_bits = 16; kstack_offset = true };
  tty = record { tiocsti_restrict = true; legacy_tiocsti = false };
  usb = record { deny_new_usb = true };
  perf = record { paranoid = pos 3 };
  overlayfs = record { unprivileged_mounts = false };
}

unfoldable pub desktop : HardeningConfig
desktop = record config_default {
  usb = record { deny_new_usb = false };
  perf = record { paranoid = pos 2 };
}

-- The static of hardening_ffi.rs.
unfoldable pub hardening : HardeningConfig
hardening = record {
  fs = record { symlinks = 1; hardlinks = 1; fifos = 2; regular = 2 };
  aslr = record { mmap_rnd_bits = 32; mmap_rnd_compat_bits = 16; kstack_offset = true };
  tty = record { tiocsti_restrict = true; legacy_tiocsti = false };
  usb = record { deny_new_usb = false };
  perf = record { paranoid = pos 3 };
  overlayfs = record { unprivileged_mounts = false };
}

unfoldable pub perf_event_allowed : ℕ → ℤ → ℕ
unfolding perf_allowed
perf_event_allowed cap_effective paranoid = bit_of (perf_allowed (from_raw cap_effective) paranoid)

unfoldable pub ffi_tiocsti_allowed : ℕ → ℕ → ℕ
unfolding tiocsti_allowed hardening
ffi_tiocsti_allowed cap_effective same_tty =
    let caps = from_raw cap_effective in
    let restrict = hardening.tty.tiocsti_restrict in
    bit_of (tiocsti_allowed caps restrict (not (same_tty == 0)))

unfoldable pub usb_new_device_allowed : ℕ
unfolding hardening
usb_new_device_allowed = bit_of (not hardening.usb.deny_new_usb)

unfoldable pub perf_paranoid_level : ℤ
unfolding hardening
perf_paranoid_level = hardening.perf.paranoid

unfoldable pub protected_symlinks : ℕ
unfolding hardening
protected_symlinks = hardening.fs.symlinks

unfoldable pub protected_hardlinks : ℕ
unfolding hardening
protected_hardlinks = hardening.fs.hardlinks

unfoldable pub protected_fifos : ℕ
unfolding hardening
protected_fifos = hardening.fs.fifos

unfoldable pub protected_regular : ℕ
unfolding hardening
protected_regular = hardening.fs.regular
