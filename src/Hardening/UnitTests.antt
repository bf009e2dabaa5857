-- ===== src/Hardening/UnitTests.antt =====
-- rust/rustlux_security/src/hardening.rs and hardening_ffi.rs: the unit tests of those files. A
-- test is what its assertions check.
use linux_rustlux.Base.{◌≡◌, refl, true, false, pos, ◌<<<◌}
use linux_rustlux.Capabilities.{has, perf_mon, cap_number}
use linux_rustlux.Hardening.{
  config_default, maximum, desktop, perf_event_allowed, ffi_tiocsti_allowed, usb_new_device_allowed,
  perf_paranoid_level, protected_symlinks, protected_hardlinks, protected_fifos, protected_regular,
}

abbrev DefaultIsHardened : Type 0
DefaultIsHardened =
    let cfg = config_default in
    (cfg.fs.symlinks ≡ 1)
    × (cfg.fs.hardlinks ≡ 1)
    × (cfg.fs.fifos ≡ 2)
    × (cfg.fs.regular ≡ 2)
    × (cfg.aslr.kstack_offset ≡ true)
    × (cfg.tty.tiocsti_restrict ≡ true)
    × (cfg.tty.legacy_tiocsti ≡ false)
    × (cfg.usb.deny_new_usb ≡ false)
    × (cfg.perf.paranoid ≡ pos 3)
    × (cfg.overlayfs.unprivileged_mounts ≡ false)

abbrev DesktopRelaxesUsbAndPerf : Type 0
DesktopRelaxesUsbAndPerf =
    let cfg = desktop in
    (cfg.usb.deny_new_usb ≡ false)
    × (cfg.perf.paranoid ≡ pos 2)
    × (cfg.tty.tiocsti_restrict ≡ true)
    × (cfg.overlayfs.unprivileged_mounts ≡ false)

abbrev MaximumLocksUsb : Type 0
MaximumLocksUsb = let cfg = maximum in (cfg.usb.deny_new_usb ≡ true) × (cfg.perf.paranoid ≡ pos 3)

config_tests : DefaultIsHardened × DesktopRelaxesUsbAndPerf × MaximumLocksUsb
unfolding desktop maximum
config_tests = (
  (refl, refl, refl, refl, refl, refl, refl, refl, refl, refl),
  (refl, refl, refl, refl),
  (refl, refl),
)

abbrev PerfDeniedWithoutCap : Type 0
PerfDeniedWithoutCap = perf_event_allowed 0 (pos 3) ≡ 0

abbrev PerfAllowedWithCap : Type 0
PerfAllowedWithCap =
    let cap_perfmon = 1 <<< cap_number perf_mon in perf_event_allowed cap_perfmon (pos 3) ≡ 1

abbrev TiocstiDeniedWithoutSysadmin : Type 0
TiocstiDeniedWithoutSysadmin = ffi_tiocsti_allowed 0 1 ≡ 0

abbrev UsbAllowedByDefault : Type 0
UsbAllowedByDefault = usb_new_device_allowed ≡ 1

abbrev HardenedDefaults : Type 0
HardenedDefaults =
    (perf_paranoid_level ≡ pos 3)
    × (protected_symlinks ≡ 1)
    × (protected_hardlinks ≡ 1)
    × (protected_fifos ≡ 2)
    × (protected_regular ≡ 2)

ffi_tests :
    PerfDeniedWithoutCap × PerfAllowedWithCap × TiocstiDeniedWithoutSysadmin × UsbAllowedByDefault
    × HardenedDefaults
unfolding perf_event_allowed ffi_tiocsti_allowed has usb_new_device_allowed perf_paranoid_level
    protected_symlinks protected_hardlinks protected_fifos protected_regular
ffi_tests = (refl, refl, refl, refl, (refl, refl, refl, refl, refl))
