-- ===== src/Sentinel/Tests.antt =====
-- patches/0008-rustlux-mem-sentinel.patch: the theorems at a few machine checks, with the masks of
-- x86 and pages of 4 KiB.
use linux_rustlux.Base.{
  ℕ, ◌+◌, ◌^◌, ◌≡◌, refl, true, false, ltb, leb, ◌&&◌, if◌then◌else◌, List, [], ◌∷◌, arith,
}
use linux_rustlux.InTree.{memsentinel_on_error}
use linux_rustlux.Sentinel.{
  Kernel, IsMinmax, Mce, Sentinel, Event, logged, set_enabled, set_threshold, boot,
  fallback_on_error, has_status, run,
}
use linux_rustlux.Sentinel.Fallback.{run-same}
use linux_rustlux.Sentinel.Pages.{rust-IsEscalating, run-poisoned}
use linux_rustlux.Sentinel.Storm.{logs, run-storm}

abbrev kernel : Kernel
kernel = record {
  status_val = 2 ^ 63;
  status_uc = 2 ^ 61;
  status_addrv = 2 ^ 58;
  page_shift = 12;
  nsec_per_msec = 1_000_000;
  is_memory_error = λ m. true;
  douintvec_minmax =
      λ least old written. if leb least written && ltb written (2 ^ 32) then written else old;
}

kernel-IsMinmax : IsMinmax kernel
kernel-IsMinmax = record { bounds = λ least old written. ground arith }

abbrev corrected : Mce
corrected = record { status = 2 ^ 63; addr = 0x1234_5678 }

abbrev fatal : Mce
fatal = record { status = 2 ^ 63 + 2 ^ 61 + 2 ^ 58; addr = 0x1234_5678 }

abbrev events : List Event
events =
    logged fatal 5_000_000
    ∷ set_threshold 0
    ∷ logged corrected 6_000_000
    ∷ set_enabled false
    ∷ logged fatal 7_000_000
    ∷ []

run-same_example :
    run kernel memsentinel_on_error events boot ≡ run kernel fallback_on_error events boot
run-same_example = run-same kernel kernel-IsMinmax events boot (omega arith) (omega arith)

run-poisoned_example : (run kernel memsentinel_on_error events boot).poisoned ≡ 0x1_2345 ∷ []
unfolding has_status
run-poisoned_example = run-poisoned kernel memsentinel_on_error rust-IsEscalating events boot

-- The eighth corrected error of the first window.
abbrev seven : Sentinel
seven = record boot { windows = record { start_ms = 0; count = 7 } }

abbrev one_more : List (Mce × ℕ)
one_more = (corrected, 8_000_000) ∷ []

run-storm_example :
    run kernel memsentinel_on_error (logs one_more) seven
    ≡ record boot { windows = record { start_ms = 0; count = 8 }; tainted = true }
unfolding has_status
run-storm_example =
    run-storm kernel one_more seven refl ((refl, refl, refl, refl), tt) (omega arith) (omega arith)
