-- ===== src/Sentinel/Storm.antt =====
-- patches/0008-rustlux-mem-sentinel.patch: corrected memory errors, one after the other.
use linux_rustlux.Base.{
  ℕ, ◌+◌, ◌/◌, ◌^◌, ◌<◌, true, false, ltb, leb, ◌==◌, ◌&&◌, ◌||◌, ◌≡◌, ap, ◌∙◌, List, [], ◌∷◌,
  length, wrapping_sub64, arith,
}
use linux_rustlux.InTree.{memsentinel_on_error}
use linux_rustlux.Sentinel.{
  Kernel, Mce, Sentinel, Event, logged, window_ms, has_status, act, heed, record_mce, handle, run,
}

abbrev pub logs : List (Mce × ℕ) → List Event
logs [] = []
logs ((m, now_ns) ∷ records) = logged m now_ns ∷ logs records

module _ (k : Kernel) where
  -- Valid records of corrected memory errors, inside the window that starts at `start`.
  abbrev pub AllCorrected : ℕ → List (Mce × ℕ) → Type 0
  AllCorrected start [] = Unit
  AllCorrected start ((m, now_ns) ∷ records) =
      ((has_status k m k.status_val ≡ true)
        × (k.is_memory_error m ≡ true)
        × (has_status k m k.status_uc ≡ false)
        × (ltb window_ms (wrapping_sub64 (now_ns / k.nsec_per_msec) start) ≡ false))
      × AllCorrected start records

  corrected_one :
      (m : Mce) (now_ns : ℕ) (s : Sentinel)
      → s.enabled ≡ true
      → has_status k m k.status_val ≡ true
      → k.is_memory_error m ≡ true
      → has_status k m k.status_uc ≡ false
      → ltb window_ms (wrapping_sub64 (now_ns / k.nsec_per_msec) s.windows.start_ms) ≡ false
      → s.windows.count + 1 < 2 ^ 32
      → 0 < s.threshold
      → record_mce k memsentinel_on_error m now_ns s ≡ record s {
        windows = record s.windows { count = s.windows.count + 1 };
        tainted = s.tainted || (s.windows.count + 1 == s.threshold);
      }
  unfolding record_mce heed act memsentinel_on_error
  corrected_one m now_ns s on val mem uc inside small low = ground arith

  -- A run of valid records of corrected memory errors, inside one window whose count stays below
  -- 2 ^ 32, with the sentinel enabled and a positive threshold, raises the count by its length
  -- and changes nothing but the taint, which is set exactly when the count passes the threshold
  -- on the way.
  pub run-storm :
      (records : List (Mce × ℕ)) (s : Sentinel)
      → s.enabled ≡ true
      → AllCorrected s.windows.start_ms records
      → s.windows.count + length records < 2 ^ 32
      → 0 < s.threshold
      → let count = s.windows.count + length records in
        run k memsentinel_on_error (logs records) s ≡ record s {
          windows = record s.windows { count = count };
          tainted = s.tainted || (ltb s.windows.count s.threshold && leb s.threshold count);
        }
  unfolding run handle
  run-storm [] s on all small low = ground arith
  run-storm ((m, now_ns) ∷ records) s on ((val, mem, uc, inside), rest) small low =
      let s' : Sentinel = record s {
        windows = record s.windows { count = s.windows.count + 1 };
        tainted = s.tainted || (s.windows.count + 1 == s.threshold);
      } in
      ap (run k memsentinel_on_error (logs records))
        (corrected_one m now_ns s on val mem uc inside (omega arith) low)
      ∙ ground (arith, run-storm records s' on rest (omega arith) low)
