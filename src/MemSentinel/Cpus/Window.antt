-- ===== src/MemSentinel/Cpus/Window.antt =====
-- rust/rustlux_mm/src/mem_sentinel.rs: what all CPUs together do within one window.
use linux_rustlux.Base.{ℕ, ◌+◌, ◌^◌, ◌≤◌, ◌<◌, ◌≡◌, ◌&&◌, ltb, leb, bit_of, arith}
use linux_rustlux.Base.Cells.{weigh, weigh-update}
use linux_rustlux.MemSentinel.{compare_exchange, reset_count, fetch_add, decide_action}
use linux_rustlux.MemSentinel.Cpus.{
  idle, loaded, counting, System, Step, uncorrected, load, in_window, cas_win, cas_lose, store,
  count, Steps, here, next,
}
use linux_rustlux.MemSentinel.Cpus.Warnings.{pending, Step-counted}

-- No window has been opened between `s` and `t`: the count has followed the errors, and a warning
-- was given if it passed the threshold.
record SameWindow (cpus threshold : ℕ) (s t : System) : Type 0 where
  nothing_pending : weigh pending cpus t.pc ≡ 0
  start : t.mem.window_start_ms ≡ s.mem.window_start_ms
  later : s.counted ≤ t.counted
  followed : s.counted + t.mem.window_count ≡ t.counted + s.mem.window_count
  warned :
      t.warnings
      ≡ s.warnings + bit_of (ltb s.mem.window_count threshold && leb threshold t.mem.window_count)

Step-windows : {cpus threshold : ℕ} {s t : System} → Step cpus threshold s t → s.windows ≤ t.windows
Step-windows (cas_win i now start lt at late won_it) = omega arith
Step-windows (count i lt at) = omega arith
Step-windows (uncorrected i at) = omega arith
Step-windows _ = omega arith

Step-SameWindow :
    {cpus threshold : ℕ} {s t u : System}
    → Step cpus threshold t u
    → u.windows ≡ t.windows
    → s.mem.window_count + u.counted < 2 ^ 32 + s.counted
    → SameWindow cpus threshold s t
    → SameWindow cpus threshold s u
unfolding compare_exchange reset_count fetch_add decide_action
Step-SameWindow (uncorrected i at) same few p = p
Step-SameWindow {cpus} {t = t} (load i now lt at) same few p =
    ground (arith, weigh-update pending cpus t.pc i (loaded now t.mem.window_start_ms) lt)
Step-SameWindow {cpus} {t = t} (in_window i now start lt at fresh) same few p =
    ground (arith, weigh-update pending cpus t.pc i counting lt)
Step-SameWindow {cpus} {t = t} (cas_win i now start lt at late won_it) same few p =
    absurd (omega arith)
Step-SameWindow {cpus} {t = t} (cas_lose i now start lt at late lost) same few p =
    ground (arith, weigh-update pending cpus t.pc i counting lt)
Step-SameWindow {cpus} {t = t} (store i lt at) same few p =
    ground (arith, weigh-update pending cpus t.pc i counting lt)
Step-SameWindow {cpus} {t = t} (count i lt at) same few p =
    ground (arith, weigh-update pending cpus t.pc i idle lt)

Steps-windows :
    {cpus threshold : ℕ} {s t : System} → Steps cpus threshold s t → s.windows ≤ t.windows
Steps-windows here = omega arith
Steps-windows (next r st) = omega (arith, Steps-windows r, Step-windows st)

Steps-SameWindow :
    {cpus threshold : ℕ} {s t : System}
    → Steps cpus threshold s t
    → weigh pending cpus s.pc ≡ 0
    → t.windows ≡ s.windows
    → s.mem.window_count + t.counted < 2 ^ 32 + s.counted
    → SameWindow cpus threshold s t
Steps-SameWindow here quiet same few = ground arith
Steps-SameWindow (next r st) quiet same few =
    Step-SameWindow st (omega (arith, Steps-windows r, Step-windows st)) few (
      Steps-SameWindow r quiet (omega (arith, Steps-windows r, Step-windows st))
        (omega (arith, Step-counted st)))

-- In every interleaving of any number of CPUs that opens no window, starts with no opening under
-- way and keeps the count below 2 ^ 32, the count grows by the number of errors counted, and all
-- CPUs together warn once if the count passes the threshold on the way, and not otherwise.
pub Steps-warns_once :
    {cpus threshold : ℕ} {s t : System}
    → Steps cpus threshold s t
    → weigh pending cpus s.pc ≡ 0
    → t.windows ≡ s.windows
    → s.mem.window_count + t.counted < 2 ^ 32 + s.counted
    → (t.mem.window_count + s.counted ≡ s.mem.window_count + t.counted)
      × (t.warnings
          ≡ s.warnings
            + bit_of (ltb s.mem.window_count threshold && leb threshold t.mem.window_count))
Steps-warns_once r quiet same few =
    let w = Steps-SameWindow r quiet same few in (omega (arith, w), w.warned)
