-- ===== src/MemSentinel/UnitTests.antt =====
-- rust/rustlux_mm/src/mem_sentinel.rs: the unit tests of that file. A test is what its assertions
-- check.
use linux_rustlux.Base.{ℕ, zero, suc, ◌+◌, ◌-◌, ◌*◌, Bool, true, false, ◌≡◌, refl, if◌then◌else◌}
use linux_rustlux.MemSentinel.{
  MemSentinel, SentinelAction, none, warn, offline, new, window_ms, default_threshold, on_error,
  action_code, memsentinel_on_error,
}

-- `for _ in 0..n`, where each round must answer `none`.
abbrev AllNone : ℕ → MemSentinel → Type 0
AllNone zero s = Unit
AllNone (suc n) s =
    let (s', action) = on_error s 1_000 false default_threshold in (action ≡ none) × AllNone n s'

-- `for _ in 0..n`
unfoldable repeated : ℕ → MemSentinel → MemSentinel
repeated zero s = s
repeated (suc n) s = repeated n (on_error s 1_000 false default_threshold).0

abbrev CorrectedBelowThresholdIsNone : Type 0
CorrectedBelowThresholdIsNone = AllNone (default_threshold - 1) new

abbrev CorrectedStormWarnsOnceAtThreshold : Type 0
CorrectedStormWarnsOnceAtThreshold =
    let s = repeated (default_threshold - 1) new in
    let (s', reached) = on_error s 1_500 false default_threshold in
    (reached ≡ warn) × ((on_error s' 2_000 false default_threshold).1 ≡ none)

abbrev WindowExpiryResetsCount : Type 0
WindowExpiryResetsCount =
    let s = repeated (default_threshold - 1) new in
    let late = 1_000 + window_ms + 1 in (on_error s late false default_threshold).1 ≡ none

abbrev UncorrectedAlwaysOfflines : Type 0
UncorrectedAlwaysOfflines = (on_error new 0 true default_threshold).1 ≡ offline

abbrev is_warning : SentinelAction → Bool
is_warning warn = true
is_warning none = false
is_warning offline = false

-- `for i in 0..20u64`, at `i` with `left` rounds to go.
unfoldable expo_burst : ℕ → ℕ → MemSentinel × Bool → MemSentinel × Bool
expo_burst zero i t = t
expo_burst (suc left) i (s, warned) =
    let (s', action) = on_error s (i * 100) false default_threshold in
    expo_burst left (i + 1) (s', if is_warning action then true else warned)

abbrev Expo6000InstabilityScenario : Type 0
Expo6000InstabilityScenario =
    let (s, warned) = expo_burst 20 0 (new, false) in
    (warned ≡ true) × ((on_error s 2_100 true default_threshold).1 ≡ offline)

abbrev FfiZeroThresholdIsClamped : Type 0
FfiZeroThresholdIsClamped = (memsentinel_on_error new 0 0 0).1 ≡ action_code warn

unit_tests :
    CorrectedBelowThresholdIsNone × CorrectedStormWarnsOnceAtThreshold × WindowExpiryResetsCount
    × UncorrectedAlwaysOfflines × Expo6000InstabilityScenario × FfiZeroThresholdIsClamped
unfolding on_error repeated expo_burst memsentinel_on_error
unit_tests = (
  (refl, (refl, (refl, (refl, (refl, (refl, (refl, tt))))))),
  (refl, refl),
  refl,
  refl,
  (refl, refl),
  refl,
)
