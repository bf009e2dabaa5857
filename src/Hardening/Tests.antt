-- ===== src/Hardening/Tests.antt =====
-- rust/rustlux_security/src/hardening.rs and hardening_ffi.rs: a preset at work.
use linux_rustlux.Base.{◌≡◌, refl}
use linux_rustlux.Capabilities.{has}
use linux_rustlux.Hardening.{desktop, perf_event_allowed}

-- The desktop preset, whose comment promises basic profiling, allows none without CAP_PERFMON.
desktop_denies_perf : perf_event_allowed 0 desktop.perf.paranoid ≡ 0
unfolding perf_event_allowed has desktop
desktop_denies_perf = refl
