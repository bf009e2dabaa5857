-- ===== src/MemSentinel/Cpus.antt =====
-- rust/rustlux_mm/src/mem_sentinel.rs: `on_error` on any number of CPUs, interleaved at each
-- access of the shared atomics.
pub mod Warnings
pub mod Alone
pub mod Window
pub mod Progress
use linux_rustlux.Base.{ℕ, ◌+◌, ◌<◌, ◌≡◌, Bool, true, false}
use linux_rustlux.Base.Cells.{update}
use linux_rustlux.MemSentinel.{
  MemSentinel, new, expired, compare_exchange, reset_count, fetch_add, decide_action,
}
use linux_rustlux.MemSentinel.Windows.{is_warn}

-- Where a CPU stands in `on_error`, with the locals that are live there.
pub data Pc : Type 0 where
  idle : Pc
  loaded : (now start : ℕ) → Pc  -- before the test of the window
  won : Pc  -- the compare-exchange has succeeded; before the store of 0
  counting : Pc  -- before `fetch_add`

-- The shared state, the CPUs, and what has happened so far: how many compare-exchanges
-- succeeded, how many errors were counted, and how many warnings were returned.
pub record System : Type 0 where
  pub mem : MemSentinel
  pub pc : ℕ → Pc
  pub windows : ℕ
  pub counted : ℕ
  pub warnings : ℕ

abbrev pub boot : System
boot = record { mem = new; pc = λ _. idle; windows = 0; counted = 0; warnings = 0 }

-- One access by CPU `i` of `cpus`, all with one threshold. Errors and the times that they carry
-- are the environment's, so times need not grow. An uncorrected error returns before any access.
pub data Step (cpus threshold : ℕ) (s : System) : System → Type 0 where
  uncorrected : (i : ℕ) → s.pc i ≡ idle → Step cpus threshold s s
  load :
      (i now : ℕ)
      → i < cpus
      → s.pc i ≡ idle
      → Step cpus threshold s (record s { pc = update s.pc i (loaded now s.mem.window_start_ms) })
  in_window :
      (i now start : ℕ)
      → i < cpus
      → s.pc i ≡ loaded now start
      → expired now start ≡ false
      → Step cpus threshold s (record s { pc = update s.pc i counting })
  cas_win :
      (i now start : ℕ)
      → i < cpus
      → s.pc i ≡ loaded now start
      → expired now start ≡ true
      → (compare_exchange start now s.mem).1 ≡ true
      → Step cpus threshold s (record s {
        mem = (compare_exchange start now s.mem).0;
        pc = update s.pc i won;
        windows = s.windows + 1;
      })
  cas_lose :
      (i now start : ℕ)
      → i < cpus
      → s.pc i ≡ loaded now start
      → expired now start ≡ true
      → (compare_exchange start now s.mem).1 ≡ false
      → Step cpus threshold s
          (record s { mem = (compare_exchange start now s.mem).0; pc = update s.pc i counting })
  store :
      (i : ℕ)
      → i < cpus
      → s.pc i ≡ won
      → Step cpus threshold s (record s { mem = reset_count s.mem; pc = update s.pc i counting })
  count :
      (i : ℕ)
      → i < cpus
      → s.pc i ≡ counting
      → Step cpus threshold s (record s {
        mem = (fetch_add s.mem).0;
        pc = update s.pc i idle;
        counted = s.counted + 1;
        warnings = s.warnings + is_warn (decide_action (fetch_add s.mem).1 threshold);
      })

pub data Steps (cpus threshold : ℕ) (s : System) : System → Type 0 where
  here : Steps cpus threshold s s
  next :
      {t u : System} → Steps cpus threshold s t → Step cpus threshold t u → Steps cpus threshold s u
