-- ===== src/MemSentinel/Tests.antt =====
-- rust/rustlux_mm/src/mem_sentinel.rs: the theorems at concrete states, and a race of two CPUs.
use linux_rustlux.Base.{◌*◌, ◌⊎◌, ◌&&◌, ltb, leb, ◌+◌, ◌≤◌, ◌≡◌, refl, false, bit_of, arith}
use linux_rustlux.Base.Cells.{weigh-eq-zero}
use linux_rustlux.MemSentinel.{
  MemSentinel, none, expired, compare_exchange, reset_count, fetch_add, decide_action, on_error,
}
use linux_rustlux.MemSentinel.Windows.{on_error-earlier}
use linux_rustlux.MemSentinel.Cpus.{
  idle, System, boot, load, in_window, cas_win, store, count, Steps, here, next,
}
use linux_rustlux.MemSentinel.Cpus.Warnings.{pending, warnings-le-windows}
use linux_rustlux.MemSentinel.Cpus.Window.{Steps-warns_once}
use linux_rustlux.Base.Cells.{weigh, AllBelow}
use linux_rustlux.MemSentinel.Cpus.Progress.{rank, loads, accesses, CanMove, Steps-wait_free}
use linux_rustlux.MemSentinel.Cpus.Alone.{OnlyBy, IsOneError, Steps-on_error}

abbrev later : MemSentinel
later = record { window_start_ms = 5_000; window_count = 7 }

on_error-earlier_example :
    on_error later 4_999 false 8 ≡ (record { window_start_ms = 4_999; window_count = 1 }, none)
on_error-earlier_example = on_error-earlier later 4_999 8 (omega arith) (omega arith)

-- One error short of the threshold.
abbrev stormy : System
stormy = record boot { mem = record { window_start_ms = 900; window_count = 7 } }

Steps-on_error_example :
    (t : System) × (r : Steps 2 8 stormy t) × OnlyBy 1 r × IsOneError 8 60_900 stormy t
Steps-on_error_example = Steps-on_error 2 8 1 60_900 stormy (omega arith) refl

-- CPU 0 counts one error in the first window, and then opens a second one.
opened : (s : System) × Steps 2 2 boot s
unfolding expired compare_exchange fetch_add decide_action
opened = (
  _,
  next
      (next
        (next
          (next (next here (load 0 1_000 (omega arith) refl))
            (in_window 0 1_000 0 (omega arith) refl refl))
          (count 0 (omega arith) refl))
        (load 0 100_000 (omega arith) refl))
      (cas_win 0 100_000 0 (omega arith) refl refl refl),
)

-- Before CPU 0 clears the count, CPU 1 adds to the old one and warns; after that a second error
-- in the same window warns again.
two_warnings_in_one_window :
    (s t : System) × Steps 2 2 boot s
    × Steps 2 2 s t
    × (s.windows ≡ 1)
    × (s.warnings ≡ 0)
    × (t.windows ≡ 1)
    × (t.warnings ≡ 2)
unfolding opened expired compare_exchange reset_count fetch_add decide_action
two_warnings_in_one_window = (
  opened.0,
  _,
  opened.1,
  next
      (next
        (next
          (next
            (next
              (next
                (next (next here (load 1 100_001 (omega arith) refl))
                  (in_window 1 100_001 100_000 (omega arith) refl refl))
                (count 1 (omega arith) refl))
              (store 0 (omega arith) refl))
            (count 0 (omega arith) refl))
          (load 1 100_002 (omega arith) refl))
        (in_window 1 100_002 100_000 (omega arith) refl refl))
      (count 1 (omega arith) refl),
  refl,
  refl,
  refl,
  refl,
)

warnings-le-windows_example : opened.0.warnings ≤ opened.0.windows + 1
unfolding opened
warnings-le-windows_example = warnings-le-windows opened.1 (omega arith)

-- Two CPUs count one error each in the first window, one of them with an older reading.
two_cpus_count : (s : System) × Steps 2 2 boot s
unfolding expired fetch_add decide_action
two_cpus_count = (
  _,
  next
      (next
        (next
          (next
            (next (next here (load 0 1_000 (omega arith) refl)) (load 1 1_001 (omega arith) refl))
            (in_window 1 1_001 0 (omega arith) refl refl))
          (count 1 (omega arith) refl))
        (in_window 0 1_000 0 (omega arith) refl refl))
      (count 0 (omega arith) refl),
)

Steps-warns_once_example :
    (two_cpus_count.0.mem.window_count + 0 ≡ 0 + two_cpus_count.0.counted)
    × (two_cpus_count.0.warnings ≡ 0 + bit_of (ltb 0 2 && leb 2 two_cpus_count.0.mem.window_count))
unfolding two_cpus_count fetch_add
Steps-warns_once_example =
    Steps-warns_once two_cpus_count.1 (weigh-eq-zero pending 2 idle refl) refl (omega arith)

Steps-wait_free_example :
    let (s, r) = two_cpus_count in
    (accesses r + weigh rank 2 s.pc ≤ 3 * loads r + weigh rank 2 boot.pc)
    × AllBelow (λ i. (s.pc i ≡ idle) ⊎ CanMove 2 2 s i) 2
unfolding two_cpus_count
Steps-wait_free_example = Steps-wait_free two_cpus_count.1
