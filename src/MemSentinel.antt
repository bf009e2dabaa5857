-- ===== src/MemSentinel.antt =====
-- rust/rustlux_mm/src/mem_sentinel.rs: the error rate tracker, as one CPU runs it alone. The
-- atomic operations are functions of the shared state; Cpus interleaves them.
pub mod Windows
pub mod Cpus
mod UnitTests
mod Tests
use linux_rustlux.Base.{
  ℕ, ◌+◌, ◌^◌, max, Bool, true, false, not, ltb, ◌==◌, if◌then◌else◌, u32, wrapping_sub64, ℤ, pos,
}

abbrev pub window_ms : ℕ
window_ms = 60_000

abbrev pub default_threshold : ℕ
default_threshold = 8

pub data SentinelAction : Type 0 where
  none warn offline : SentinelAction

pub record MemSentinel : Type 0 where
  pub window_start_ms : ℕ
  pub window_count : ℕ

abbrev pub new : MemSentinel
new = record { window_start_ms = 0; window_count = 0 }

-- `now_ms.wrapping_sub(start) > WINDOW_MS`
unfoldable pub expired : ℕ → ℕ → Bool
expired now start = ltb window_ms (wrapping_sub64 now start)

-- `window_start_ms.compare_exchange(start, now_ms, ..)` and whether it is `is_ok`.
unfoldable pub compare_exchange : ℕ → ℕ → MemSentinel → MemSentinel × Bool
compare_exchange start now m =
    if m.window_start_ms == start then (record m { window_start_ms = now }, true) else (m, false)

-- `window_count.store(0, ..)`
unfoldable pub reset_count : MemSentinel → MemSentinel
reset_count m = record m { window_count = 0 }

-- `window_count.fetch_add(1, ..) + 1`; both additions wrap.
unfoldable pub fetch_add : MemSentinel → MemSentinel × ℕ
fetch_add m = (record m { window_count = u32 (m.window_count + 1) }, u32 (m.window_count + 1))

unfoldable pub decide_action : ℕ → ℕ → SentinelAction
decide_action count threshold = if count == threshold then warn else none

unfoldable pub open_window : ℕ → MemSentinel → MemSentinel
unfolding expired compare_exchange reset_count
open_window now m =
    let start = m.window_start_ms in
    if expired now start
    then (let (m', won) = compare_exchange start now m in if won then reset_count m' else m')
    else m

unfoldable pub on_error : MemSentinel → ℕ → Bool → ℕ → MemSentinel × SentinelAction
unfolding open_window fetch_add decide_action
on_error m now uncorrected threshold =
    if uncorrected
    then (m, offline)
    else (let (m', count) = fetch_add (open_window now m) in (m', decide_action count threshold))

-- `as i32`
abbrev pub action_code : SentinelAction → ℤ
action_code none = pos 0
action_code warn = pos 1
action_code offline = pos 2

-- The static `SENTINEL` is the state that is handed through.
unfoldable pub memsentinel_on_error : MemSentinel → ℕ → ℕ → ℕ → MemSentinel × ℤ
unfolding on_error
memsentinel_on_error m now uncorrected threshold =
    let (m', action) = on_error m now (not (uncorrected == 0)) (max threshold 1) in
    (m', action_code action)
