-- ===== src/MemSentinel/Windows.antt =====
-- rust/rustlux_mm/src/mem_sentinel.rs: one CPU's errors, one after the other.
use linux_rustlux.Base.{
  ℕ, ◌+◌, ◌^◌, ◌<◌, max, ◌≡◌, false, ◌&&◌, ltb, leb, ◌==◌, if◌then◌else◌, bit_of, pos, List, [],
  ◌∷◌, length, arith,
}
use linux_rustlux.MemSentinel.{
  MemSentinel, SentinelAction, none, warn, offline, window_ms, expired, on_error,
  memsentinel_on_error,
}

-- Whether an action is a warning, as a number to add up.
abbrev pub is_warn : SentinelAction → ℕ
is_warn warn = 1
is_warn none = 0
is_warn offline = 0

-- Corrected errors at the given times, one after the other, and how many of them warned.
unfoldable pub storm : ℕ → MemSentinel → List ℕ → MemSentinel × ℕ
storm threshold m [] = (m, 0)
storm threshold m (now ∷ times) =
    let (m', action) = on_error m now false threshold in
    let (last, warnings) = storm threshold m' times in (last, is_warn action + warnings)

abbrev pub AllWithin : ℕ → List ℕ → Type 0
AllWithin start [] = Unit
AllWithin start (now ∷ times) = (expired now start ≡ false) × AllWithin start times

on_error-within :
    (m : MemSentinel) (now threshold : ℕ)
    → expired now m.window_start_ms ≡ false
    → m.window_count + 1 < 2 ^ 32
    → on_error m now false threshold ≡ (
      record m { window_count = m.window_count + 1 },
      if m.window_count + 1 == threshold then warn else none,
    )
unfolding on_error
on_error-within m now threshold inside small = ground arith

-- A run of corrected errors inside an open window whose count stays below 2 ^ 32 raises the
-- count by its length, and warns once if the count passes the threshold on the way, and not
-- otherwise.
storm-warns_once :
    (threshold : ℕ) (m : MemSentinel) (times : List ℕ)
    → AllWithin m.window_start_ms times
    → m.window_count + length times < 2 ^ 32
    → storm threshold m times ≡ (
      record m { window_count = m.window_count + length times },
      bit_of (ltb m.window_count threshold && leb threshold (m.window_count + length times)),
    )
unfolding storm
storm-warns_once threshold m [] within small = ground arith
storm-warns_once threshold m (now ∷ times) within small =
    let m' : MemSentinel = record m { window_count = m.window_count + 1 } in
    ground (
      arith,
      on_error-within m now threshold within.0,
      storm-warns_once threshold m' times within.1 (omega arith),
    )

-- An error after the window has closed, with a time in 64 bits, opens a window at its own time
-- and is the first in it.
on_error-expired :
    (m : MemSentinel) (now threshold : ℕ)
    → m.window_start_ms + window_ms < now
    → now < 2 ^ 64
    → on_error m now false threshold
      ≡ (record { window_start_ms = now; window_count = 1 }, if 1 == threshold then warn else none)
unfolding on_error
on_error-expired m now threshold late small = ground arith

-- An error that carries an earlier time than the start of the window, where that is more than
-- 60,000 below 2 ^ 64, closes the window too: the start moves back to its time and the count is
-- lost.
pub on_error-earlier :
    (m : MemSentinel) (now threshold : ℕ)
    → now < m.window_start_ms
    → m.window_start_ms + window_ms < 2 ^ 64
    → on_error m now false threshold
      ≡ (record { window_start_ms = now; window_count = 1 }, if 1 == threshold then warn else none)
unfolding on_error
on_error-earlier m now threshold back small = ground arith

-- The FFI entry point in an open window with a count that does not wrap: an uncorrected error is
-- offlined and leaves the state alone; a corrected one is counted, and warns exactly when the
-- count reaches the threshold, for which 1 is taken where 0 is handed in.
memsentinel_on_error_lem :
    (m : MemSentinel) (now uncorrected threshold : ℕ)
    → expired now m.window_start_ms ≡ false
    → m.window_count + 1 < 2 ^ 32
    → memsentinel_on_error m now uncorrected threshold ≡ (
        if uncorrected == 0
        then (
          record m { window_count = m.window_count + 1 },
          pos (bit_of (m.window_count + 1 == max threshold 1)),
        )
        else (m, pos 2))
unfolding memsentinel_on_error
memsentinel_on_error_lem m now uncorrected threshold inside small = ground arith
