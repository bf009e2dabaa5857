-- ===== src/Sentinel/Pages.antt =====
-- patches/0008-rustlux-mem-sentinel.patch: which pages are handed to memory_failure_queue.
use linux_rustlux.Base.{
  ℕ, ◌/◌, Bool, true, false, ◌&&◌, if◌then◌else◌, ◌≡◌, ◌⊎◌, refl, ◌∙◌, sym, pos, List, [], ◌∷◌,
  ◌++◌, ◌>>>◌, arith,
}
use mathlib.Core.List.{append-nil, append_assoc}
use linux_rustlux.InTree.{Windows, memsentinel_on_error}
use linux_rustlux.Sentinel.{
  Kernel, Mce, Sentinel, SentinelCore, Event, logged, set_enabled, set_threshold, fallback_on_error,
  has_status, act, heed, record_mce, handle, run,
}

-- What the sentinel relies on of the core: an uncorrected error is to be offlined and leaves the
-- counters alone, and a corrected one never is.
pub record IsEscalating (core : SentinelCore) : Type 0 where
  pub uncorrected : (w : Windows) (now_ms threshold : ℕ) → core w now_ms 1 threshold ≡ (w, pos 2)
  pub corrected :
      (w : Windows) (now_ms threshold : ℕ)
      → ((core w now_ms 0 threshold).1 ≡ pos 0) ⊎ ((core w now_ms 0 threshold).1 ≡ pos 1)

pub rust-IsEscalating : IsEscalating memsentinel_on_error
unfolding memsentinel_on_error
rust-IsEscalating = record {
  uncorrected = λ w now_ms threshold. refl;
  corrected = λ w now_ms threshold. ground arith;
}

pub fallback-IsEscalating : IsEscalating fallback_on_error
unfolding fallback_on_error
fallback-IsEscalating = record {
  uncorrected = λ w now_ms threshold. refl;
  corrected = λ w now_ms threshold. ground arith;
}

-- A valid record of an uncorrected memory error with an address.
abbrev pub is_fatal : Kernel → Mce → Bool
is_fatal k m =
    has_status k m k.status_val
    && k.is_memory_error m
    && has_status k m k.status_uc
    && has_status k m k.status_addrv

-- The pages of the fatal records that are logged while the sentinel is enabled, in order.
abbrev pub pages : Kernel → Bool → List Event → List ℕ
pages k enabled [] = []
pages k enabled (logged m now_ns ∷ events) =
    if enabled && is_fatal k m
    then (m.addr >>> k.page_shift) ∷ pages k enabled events
    else pages k enabled events
pages k enabled (set_enabled enabled' ∷ events) = pages k enabled' events
pages k enabled (set_threshold written ∷ events) = pages k enabled events

append_if :
    (b : Bool) (xs : List ℕ) (x : ℕ) (ys : List ℕ)
    → (if b then xs ++ x ∷ [] else xs) ++ ys ≡ xs ++ (if b then x ∷ ys else ys)
append_if true xs x ys = append_assoc xs (x ∷ []) ys
append_if false xs x ys = refl

module _ (k : Kernel) (core : SentinelCore) (laws : IsEscalating core) where
  record_mce-poisoned :
      (m : Mce) (now_ns : ℕ) (s : Sentinel)
      → let s' = record_mce k core m now_ns s in
        (s'.poisoned ≡ (
          if s.enabled && is_fatal k m
          then s.poisoned ++ (m.addr >>> k.page_shift) ∷ []
          else s.poisoned))
        × (s'.enabled ≡ s.enabled)
  unfolding record_mce heed act
  record_mce-poisoned m now_ns s = ground (
    arith,
    laws.uncorrected s.windows (now_ns / k.nsec_per_msec) s.threshold,
    laws.corrected s.windows (now_ns / k.nsec_per_msec) s.threshold,
  )

  -- With a core that offlines uncorrected errors and no others (IsEscalating), the pages that
  -- are handed to memory_failure_queue are those of the valid records of uncorrected memory
  -- errors with an address that are logged while the sentinel is enabled, once each and in
  -- order.
  pub run-poisoned :
      (events : List Event) (s : Sentinel)
      → (run k core events s).poisoned ≡ s.poisoned ++ pages k s.enabled events
  unfolding run handle
  run-poisoned [] s = sym (append-nil s.poisoned)
  run-poisoned (logged m now_ns ∷ events) s =
      let (poisoned, enabled) = record_mce-poisoned m now_ns s in
      run-poisoned events (record_mce k core m now_ns s)
      ∙ rw (poisoned, enabled) (append_if (s.enabled && is_fatal k m) s.poisoned _ _)
  run-poisoned (set_enabled enabled ∷ events) s =
      run-poisoned events (record s { enabled = enabled })
  run-poisoned (set_threshold written ∷ events) s =
      run-poisoned events (record s { threshold = k.douintvec_minmax 1 s.threshold written })
