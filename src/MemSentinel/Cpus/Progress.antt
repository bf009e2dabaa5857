-- ===== src/MemSentinel/Cpus/Progress.antt =====
-- rust/rustlux_mm/src/mem_sentinel.rs: the handler waits for no other CPU, and comes to an end.
use linux_rustlux.Base.{ℕ, ◌+◌, ◌*◌, ◌<◌, ◌≤◌, Bool, true, false, ◌≡◌, ◌⊎◌, inl, inr, refl, arith}
use linux_rustlux.Base.Cells.{update, weigh, weigh-update, AllBelow, AllBelow-of}
use linux_rustlux.MemSentinel.{expired, compare_exchange}
use linux_rustlux.MemSentinel.Cpus.{
  Pc, idle, loaded, won, counting, System, Step, uncorrected, load, in_window, cas_win, cas_lose,
  store, count, Steps, here, next,
}

-- How many accesses a CPU has still to make, at most.
abbrev pub rank : Pc → ℕ
rank idle = 0
rank counting = 1
rank won = 2
rank (loaded now start) = 3

-- The corrected errors that a run takes up, and the steps that it makes after their loads.
abbrev pub loads_in : {cpus threshold : ℕ} {s t : System} → Step cpus threshold s t → ℕ
loads_in (load i now lt at) = 1
loads_in _ = 0

abbrev pub accesses_in : {cpus threshold : ℕ} {s t : System} → Step cpus threshold s t → ℕ
accesses_in (load i now lt at) = 0
accesses_in (uncorrected i at) = 0
accesses_in _ = 1

abbrev pub loads : {cpus threshold : ℕ} {s t : System} → Steps cpus threshold s t → ℕ
loads here = 0
loads (next r st) = loads r + loads_in st

abbrev pub accesses : {cpus threshold : ℕ} {s t : System} → Steps cpus threshold s t → ℕ
accesses here = 0
accesses (next r st) = accesses r + accesses_in st

Step-rank :
    {cpus threshold : ℕ} {s t : System} (st : Step cpus threshold s t)
    → accesses_in st + weigh rank cpus t.pc ≤ 3 * loads_in st + weigh rank cpus s.pc
Step-rank (uncorrected i at) = omega arith
Step-rank {cpus} {s = s} (load i now lt at) =
    ground (arith, weigh-update rank cpus s.pc i (loaded now s.mem.window_start_ms) lt)
Step-rank {cpus} {s = s} (in_window i now start lt at fresh) =
    ground (arith, weigh-update rank cpus s.pc i counting lt)
Step-rank {cpus} {s = s} (cas_win i now start lt at late won_it) =
    ground (arith, weigh-update rank cpus s.pc i won lt)
Step-rank {cpus} {s = s} (cas_lose i now start lt at late lost) =
    ground (arith, weigh-update rank cpus s.pc i counting lt)
Step-rank {cpus} {s = s} (store i lt at) = ground (arith, weigh-update rank cpus s.pc i counting lt)
Step-rank {cpus} {s = s} (count i lt at) = ground (arith, weigh-update rank cpus s.pc i idle lt)

Steps-rank :
    {cpus threshold : ℕ} {s t : System} (r : Steps cpus threshold s t)
    → accesses r + weigh rank cpus t.pc ≤ 3 * loads r + weigh rank cpus s.pc
Steps-rank here = omega arith
Steps-rank (next r st) = omega (arith, Steps-rank r, Step-rank st)

-- CPU `i` can make its next access, whatever the others do.
abbrev pub CanMove : ℕ → ℕ → System → ℕ → Type 0
CanMove cpus threshold s i =
    (t : System) × Step cpus threshold s t × (rank (t.pc i) < rank (s.pc i))

moved :
    (f : ℕ → Pc) (i : ℕ) (p q : Pc) → f i ≡ q → rank p < rank q → rank (update f i p i) < rank (f i)
moved f i p q at less = ground (arith, at)

module _ (cpus threshold : ℕ) (s : System) (i : ℕ) (lt : i < cpus) where
  compare_cases :
      (now start : ℕ)
      → s.pc i ≡ loaded now start
      → expired now start ≡ true
      → (won_it : Bool) → (compare_exchange start now s.mem).1 ≡ won_it
      → CanMove cpus threshold s i
  compare_cases now start at late true e =
      (_, cas_win i now start lt at late e, moved s.pc i won (loaded now start) at (omega arith))
  compare_cases now start at late false e = (
    _,
    cas_lose i now start lt at late e,
    moved s.pc i counting (loaded now start) at (omega arith),
  )

  window_cases :
      (now start : ℕ)
      → s.pc i ≡ loaded now start
      → (late : Bool) → expired now start ≡ late
      → CanMove cpus threshold s i
  window_cases now start at true e = compare_cases now start at e _ refl
  window_cases now start at false e =
      (_, in_window i now start lt at e, moved s.pc i counting (loaded now start) at (omega arith))

  busy_cases : (p : Pc) → s.pc i ≡ p → (p ≡ idle) ⊎ CanMove cpus threshold s i
  busy_cases idle at = inl refl
  busy_cases (loaded now start) at = inr (window_cases now start at _ refl)
  busy_cases won at = inr (_, store i lt at, moved s.pc i counting won at (omega arith))
  busy_cases counting at = inr (_, count i lt at, moved s.pc i idle counting at (omega arith))

-- The handler is wait-free in every interleaving of any number of CPUs: for each corrected error
-- there are at most three accesses after its load, added up over all CPUs, and a CPU that is in
-- the middle of the handler can make its next access, after which fewer are left to it, whatever
-- the others do.
pub Steps-wait_free :
    {cpus threshold : ℕ} {s t : System} (r : Steps cpus threshold s t)
    → (accesses r + weigh rank cpus t.pc ≤ 3 * loads r + weigh rank cpus s.pc)
      × AllBelow (λ i. (t.pc i ≡ idle) ⊎ CanMove cpus threshold t i) cpus
Steps-wait_free {cpus} {threshold} {s} {t} r =
    (Steps-rank r, AllBelow-of _ cpus λ i lt. busy_cases cpus threshold t i lt (t.pc i) refl)
