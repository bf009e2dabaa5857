-- ===== src/Hardening/Order.antt =====
-- rust/rustlux_security/src/hardening.rs: the presets from the laxest to the strictest.
use linux_rustlux.Base.{◌≤◌, ◌≡◌, refl, false, pos, arith, bit_of}
use linux_rustlux.Capabilities.Checks.{◌≤ℤ◌}
use linux_rustlux.Hardening.{HardeningConfig, config_default, maximum, desktop, hardening}

-- Every protection of `strict` is at least that of `lax`, and everything that `strict` permits
-- `lax` permits.
pub record IsAsStrict (strict lax : HardeningConfig) : Type 0 where
  pub symlinks : lax.fs.symlinks ≤ strict.fs.symlinks
  pub hardlinks : lax.fs.hardlinks ≤ strict.fs.hardlinks
  pub fifos : lax.fs.fifos ≤ strict.fs.fifos
  pub regular : lax.fs.regular ≤ strict.fs.regular
  pub mmap_rnd_bits : lax.aslr.mmap_rnd_bits ≤ strict.aslr.mmap_rnd_bits
  pub mmap_rnd_compat_bits : lax.aslr.mmap_rnd_compat_bits ≤ strict.aslr.mmap_rnd_compat_bits
  pub kstack_offset : bit_of lax.aslr.kstack_offset ≤ bit_of strict.aslr.kstack_offset
  pub tiocsti_restrict : bit_of lax.tty.tiocsti_restrict ≤ bit_of strict.tty.tiocsti_restrict
  pub legacy_tiocsti : bit_of strict.tty.legacy_tiocsti ≤ bit_of lax.tty.legacy_tiocsti
  pub deny_new_usb : bit_of lax.usb.deny_new_usb ≤ bit_of strict.usb.deny_new_usb
  pub paranoid : lax.perf.paranoid ≤ℤ strict.perf.paranoid
  pub unprivileged_mounts :
      bit_of strict.overlayfs.unprivileged_mounts ≤ bit_of lax.overlayfs.unprivileged_mounts

-- The ranges that the fields' comments give.
pub record InRange (cfg : HardeningConfig) : Type 0 where
  pub symlinks : cfg.fs.symlinks ≤ 1
  pub hardlinks : cfg.fs.hardlinks ≤ 1
  pub fifos : cfg.fs.fifos ≤ 2
  pub regular : cfg.fs.regular ≤ 2
  pub mmap_rnd_bits : cfg.aslr.mmap_rnd_bits ≤ 32
  pub mmap_rnd_compat_bits : cfg.aslr.mmap_rnd_compat_bits ≤ 16
  pub paranoid : cfg.perf.paranoid ≤ℤ pos 3

-- The `maximum` preset is as strict, field by field, as every configuration whose fields are in
-- their documented ranges.
maximum-IsAsStrict : (cfg : HardeningConfig) → InRange cfg → IsAsStrict maximum cfg
unfolding maximum
maximum-IsAsStrict cfg h = ground arith

-- The static of the FFI is the default preset, is as strict as every configuration in range that
-- admits new USB devices, `desktop` among them, and differs from `desktop` in its perf level
-- alone.
pub hardening-IsAsStrict :
    (cfg : HardeningConfig)
    → InRange cfg
    → cfg.usb.deny_new_usb ≡ false
    → (hardening ≡ config_default)
      × IsAsStrict hardening cfg
      × IsAsStrict hardening desktop
      × (record desktop { perf = hardening.perf } ≡ hardening)
unfolding hardening desktop
hardening-IsAsStrict cfg h e = (refl, ground arith, omega arith, refl)
