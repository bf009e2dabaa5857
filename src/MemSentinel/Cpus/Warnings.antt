-- ===== src/MemSentinel/Cpus/Warnings.antt =====
-- rust/rustlux_mm/src/mem_sentinel.rs: how often the CPUs can warn, in every interleaving.
use linux_rustlux.Base.{ℕ, ◌+◌, ◌^◌, ◌<◌, ◌≤◌, refl, leb, bit_of, arith}
use linux_rustlux.Base.Cells.{weigh, weigh-update, weigh-eq-zero}
use linux_rustlux.MemSentinel.{compare_exchange, reset_count, fetch_add, decide_action}
use linux_rustlux.MemSentinel.Cpus.{
  Pc, idle, loaded, won, counting, System, boot, Step, uncorrected, load, in_window, cas_win,
  cas_lose, store, count, Steps, here, next,
}

-- A CPU that has opened a window and has not yet cleared the count.
abbrev pub pending : Pc → ℕ
pending won = 1
pending _ = 0

-- Every warning is paid for by a window whose count has been cleared, but for one, whose
-- errors are still counted.
pub record IsPaid (cpus threshold : ℕ) (s : System) : Type 0 where
  pub bounded : s.mem.window_count ≤ s.counted
  pub paid :
      s.warnings + weigh pending cpus s.pc ≤ s.windows + bit_of (leb threshold s.mem.window_count)

boot-IsPaid : (cpus threshold : ℕ) → IsPaid cpus threshold boot
boot-IsPaid cpus threshold = omega (arith, weigh-eq-zero pending cpus idle refl)

pub Step-counted :
    {cpus threshold : ℕ} {s t : System} → Step cpus threshold s t → s.counted ≤ t.counted
Step-counted (count i lt at) = omega arith
Step-counted (uncorrected i at) = omega arith
Step-counted _ = omega arith

Step-IsPaid :
    {cpus threshold : ℕ} {s t : System}
    → Step cpus threshold s t
    → t.counted < 2 ^ 32
    → IsPaid cpus threshold s
    → IsPaid cpus threshold t
unfolding compare_exchange reset_count fetch_add decide_action
Step-IsPaid (uncorrected i at) few p = p
Step-IsPaid {cpus} {s = s} (load i now lt at) few p =
    ground (arith, weigh-update pending cpus s.pc i (loaded now s.mem.window_start_ms) lt)
Step-IsPaid {cpus} {s = s} (in_window i now start lt at fresh) few p =
    ground (arith, weigh-update pending cpus s.pc i counting lt)
Step-IsPaid {cpus} {s = s} (cas_win i now start lt at late won_it) few p =
    ground (arith, weigh-update pending cpus s.pc i won lt)
Step-IsPaid {cpus} {s = s} (cas_lose i now start lt at late lost) few p =
    ground (arith, weigh-update pending cpus s.pc i counting lt)
Step-IsPaid {cpus} {s = s} (store i lt at) few p =
    ground (arith, weigh-update pending cpus s.pc i counting lt)
Step-IsPaid {cpus} {s = s} (count i lt at) few p =
    ground (arith, weigh-update pending cpus s.pc i idle lt)

Steps-IsPaid :
    {cpus threshold : ℕ} {s : System}
    → Steps cpus threshold boot s
    → s.counted < 2 ^ 32
    → IsPaid cpus threshold s
Steps-IsPaid {cpus} {threshold} here few = boot-IsPaid cpus threshold
Steps-IsPaid (next r st) few = Step-IsPaid st few (Steps-IsPaid r (omega (arith, Step-counted st)))

-- In every interleaving of any number of CPUs that counts fewer than 2 ^ 32 errors, the warnings
-- are at most the opened windows and one more.
pub warnings-le-windows :
    {cpus threshold : ℕ} {s : System}
    → Steps cpus threshold boot s
    → s.counted < 2 ^ 32
    → s.warnings ≤ s.windows + 1
warnings-le-windows r few = ground (arith, Steps-IsPaid r few)
