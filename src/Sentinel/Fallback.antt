-- ===== src/Sentinel/Fallback.antt =====
-- patches/0008-rustlux-mem-sentinel.patch: the kernel without Rust does as the kernel with it.
use linux_rustlux.Base.{
  ℕ, ◌/◌, ◌^◌, ◌<◌, ◌≡◌, refl, if◌then◌else◌, ℤ, pos, negsuc, List, [], ◌∷◌, arith,
}
use linux_rustlux.InTree.{Windows, memsentinel_on_error}
use linux_rustlux.Sentinel.{
  Kernel, IsMinmax, Mce, Sentinel, Event, logged, set_enabled, set_threshold, fallback_on_error,
  has_status, act, heed, record_mce, handle, run,
}

fallback_on_error-same :
    (w : Windows) (now_ms uncorrected threshold : ℕ)
    → 0 < threshold
    → threshold < 2 ^ 32
    → memsentinel_on_error w now_ms uncorrected threshold
      ≡ fallback_on_error w now_ms uncorrected threshold
unfolding memsentinel_on_error fallback_on_error
fallback_on_error-same w now_ms uncorrected threshold low high = ground arith

module _ (k : Kernel) (laws : IsMinmax k) where
  act-threshold : (m : Mce) (action : ℤ) (s : Sentinel) → (act k m action s).threshold ≡ s.threshold
  unfolding act
  act-threshold m (pos action) s = ground arith
  act-threshold m (negsuc action) s = refl

  heed-threshold :
      (m : Mce) (now_ns : ℕ) (s : Sentinel)
      → (heed k fallback_on_error m now_ns s).threshold ≡ s.threshold
  unfolding heed
  heed-threshold m now_ns s =
      let uncorrected = if has_status k m k.status_uc then 1 else 0 in
      let step = fallback_on_error s.windows (now_ns / k.nsec_per_msec) uncorrected s.threshold in
      act-threshold m step.1 (record s { windows = step.0 })

  -- A threshold that is positive and in 32 bits stays so.
  handle-threshold :
      (event : Event) (s : Sentinel)
      → 0 < s.threshold
      → s.threshold < 2 ^ 32
      → let s' = handle k fallback_on_error event s in (0 < s'.threshold) × (s'.threshold < 2 ^ 32)
  unfolding handle record_mce
  handle-threshold (logged m now_ns) s low high = ground (arith, heed-threshold m now_ns s)
  handle-threshold (set_enabled enabled) s low high = (low, high)
  handle-threshold (set_threshold written) s low high =
      ground (arith, laws.bounds 1 s.threshold written)

  handle-same :
      (event : Event) (s : Sentinel)
      → 0 < s.threshold
      → s.threshold < 2 ^ 32
      → handle k memsentinel_on_error event s ≡ handle k fallback_on_error event s
  unfolding handle record_mce heed
  handle-same (logged m now_ns) s low high =
      rw (fallback_on_error-same s.windows (now_ns / k.nsec_per_msec) _ s.threshold low high) refl
  handle-same (set_enabled enabled) s low high = refl
  handle-same (set_threshold written) s low high = refl

  -- Whatever machine checks are logged and sysctls are written, the kernel without Rust does as
  -- the kernel with it: from the same state with a threshold that is positive and in 32 bits,
  -- which writes keep if the handler refuses others, the states are the same in the end.
  pub run-same :
      (events : List Event) (s : Sentinel)
      → 0 < s.threshold
      → s.threshold < 2 ^ 32
      → run k memsentinel_on_error events s ≡ run k fallback_on_error events s
  unfolding run
  run-same [] s low high = refl
  run-same (event ∷ events) s low high =
      let (low', high') = handle-threshold event s low high in
      rw (handle-same event s low high)
        (run-same events (handle k fallback_on_error event s) low' high')
