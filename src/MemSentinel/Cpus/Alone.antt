-- ===== src/MemSentinel/Cpus/Alone.antt =====
-- rust/rustlux_mm/src/mem_sentinel.rs: a CPU that is not interrupted does what `on_error` says.
use linux_rustlux.Base.{
  ℕ, ◌+◌, ◌<◌, ◌≡◌, ◌==◌, refl, true, false, arith, Bool-cases, inl, inr, ltb, if◌then◌else◌,
  bit_of, u32, wrapping_sub64,
}
use linux_rustlux.Base.Cells.{update}
use linux_rustlux.MemSentinel.{
  MemSentinel, warn, none, on_error, open_window, expired, compare_exchange, reset_count, fetch_add,
  decide_action,
}
use linux_rustlux.MemSentinel.Cpus.{
  Pc, idle, loaded, won, counting, System, Step, uncorrected, cas_lose, load, in_window, cas_win,
  store, count, Steps, here, next,
}

update_self : {A : Type 0} (cells : ℕ → A) (i : ℕ) (a : A) → update cells i a i ≡ a
update_self cells i a = ground arith

cas_alone : (now : ℕ) (m : MemSentinel) → (compare_exchange m.window_start_ms now m).1 ≡ true
unfolding compare_exchange
cas_alone now m = ground arith

-- The CPU whose access a step is.
abbrev pub cpu_of : {cpus threshold : ℕ} {s t : System} → Step cpus threshold s t → ℕ
cpu_of (uncorrected i at) = i
cpu_of (load i now lt at) = i
cpu_of (in_window i now start lt at inside) = i
cpu_of (cas_win i now start lt at late swapped) = i
cpu_of (cas_lose i now start lt at late failed) = i
cpu_of (store i lt at) = i
cpu_of (count i lt at) = i

abbrev pub OnlyBy : ℕ → {cpus threshold : ℕ} {s t : System} → Steps cpus threshold s t → Type 0
OnlyBy i here = Unit
OnlyBy i (next r step) = OnlyBy i r × (cpu_of step ≡ i)

-- What one corrected error at the time `now` makes of the window: its start, whether it is a
-- new one, and its count.
abbrev pub IsOneError : ℕ → ℕ → System → System → Type 0
IsOneError threshold now s t =
    let late = ltb 60_000 (wrapping_sub64 now s.mem.window_start_ms) in
    let total = u32 ((if late then 0 else s.mem.window_count) + 1) in
    (t.mem ≡ record {
      window_start_ms = if late then now else s.mem.window_start_ms;
      window_count = total;
    })
    × (t.warnings ≡ s.warnings + bit_of (total == threshold))
    × (t.windows ≡ s.windows + bit_of late)
    × (t.counted ≡ s.counted + 1)
    × ((j : ℕ) → t.pc j ≡ s.pc j)
    × (on_error s.mem now false threshold ≡ (t.mem, if total == threshold then warn else none))

-- An idle CPU can run one corrected error to its end with no access of another CPU in between;
-- it leaves every CPU where it stood, one more error counted, and, as the sequential `on_error`
-- does, the start of the window at the time of the error with a count of 1 if that is more than
-- 60,000 after the start on 64 bits, and else the start as it was and the count one higher on 32
-- bits, with one more warning if and only if the new count is the threshold.
pub Steps-on_error :
    (cpus threshold i now : ℕ) (s : System)
    → i < cpus
    → s.pc i ≡ idle
    → (t : System) × (r : Steps cpus threshold s t) × OnlyBy i r × IsOneError threshold now s t
unfolding on_error open_window expired compare_exchange reset_count fetch_add decide_action
Steps-on_error cpus threshold i now s lt at =
    elim (Bool-cases (expired now s.mem.window_start_ms)) [
      | inl late ↦ (
        _,
        next
            (next
              (next (next here (load i now lt at)) (
                cas_win i now s.mem.window_start_ms lt (update_self s.pc i asked) late
                  (cas_alone now s.mem)))
              (store i lt (update_self (update s.pc i asked) i won)))
            (count i lt (update_self (update (update s.pc i asked) i won) i counting)),
        ((((tt, refl), refl), refl), refl),
        (
          ground (arith, late),
          ground (arith, late),
          ground (arith, late),
          refl,
          (λ j. ground (arith, at)),
          ground (arith, late),
        ),
      )
      | inr inside ↦ (
        _,
        next
            (next (next here (load i now lt at))
              (in_window i now s.mem.window_start_ms lt (update_self s.pc i asked) inside))
            (count i lt (update_self (update s.pc i asked) i counting)),
        (((tt, refl), refl), refl),
        (
          ground (arith, inside),
          ground (arith, inside),
          ground (arith, inside),
          refl,
          (λ j. ground (arith, at)),
          ground (arith, inside),
        ),
      )
    ]
  where
    asked : Pc
    asked = loaded now s.mem.window_start_ms
