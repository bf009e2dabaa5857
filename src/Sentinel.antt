-- ===== src/Sentinel.antt =====
-- patches/0008-rustlux-mem-sentinel.patch: mm/rustlux_memsentinel.c, which hands each logged machine
-- check to a core that counts errors, and acts on its answer. The core is a parameter, since the
-- kernel is built with the Rust one of InTree or with the C one, which is here.
pub mod Fallback
pub mod Pages
pub mod Storm
mod Tests
use linux_rustlux.Base.{
  ℕ, ◌+◌, ◌/◌, bit_and, Bool, true, false, not, ltb, ◌==◌, if◌then◌else◌, ◌≡◌, ◌⊎◌, ◌≤◌, ◌<◌, ◌^◌,
  u32, u64, ◌>>>◌, wrapping_sub64, ℤ, pos, negsuc, List, [], ◌∷◌, ◌++◌,
}
use linux_rustlux.InTree.{Windows}

-- `struct mce`, as far as it is read.
pub record Mce : Type 0 where
  pub status : ℕ
  pub addr : ℕ

-- What the kernel's own headers and functions give: the masks MCI_STATUS_VAL, MCI_STATUS_UC and
-- MCI_STATUS_ADDRV, PAGE_SHIFT, NSEC_PER_MSEC, mce_is_memory_error, and what
-- proc_douintvec_minmax makes of a least value, an old value and a written one.
pub record Kernel : Type 0 where
  pub status_val : ℕ
  pub status_uc : ℕ
  pub status_addrv : ℕ
  pub page_shift : ℕ
  pub nsec_per_msec : ℕ
  pub is_memory_error : Mce → Bool
  pub douintvec_minmax : ℕ → ℕ → ℕ → ℕ

-- A write of a number below the least one, or not in 32 bits, is refused.
pub record IsMinmax (k : Kernel) : Type 0 where
  pub bounds :
      (least old written : ℕ)
      → (k.douintvec_minmax least old written ≡ old)
        ⊎ ((k.douintvec_minmax least old written ≡ written)
            × (least ≤ written)
            × (written < 2 ^ 32))

-- rustlux_memsentinel_on_error
abbrev pub SentinelCore : Type 0
SentinelCore = Windows → ℕ → ℕ → ℕ → Windows × ℤ

abbrev pub window_ms : ℕ
window_ms = 60_000

-- `atomic64_cmpxchg`, which alone succeeds always, and `atomic_set`.
unfoldable pub fallback_open_window : ℕ → Windows → Windows
fallback_open_window now_ms w =
    let start = w.start_ms in
    if ltb window_ms (wrapping_sub64 now_ms start)
    then (if w.start_ms == start then record { start_ms = now_ms; count = 0 } else w)
    else w

-- The counter is an `int`, given by its bit pattern, which the kernel lets wrap; so is
-- `(int)threshold`.
unfoldable pub fallback_on_error : SentinelCore
unfolding fallback_open_window
fallback_on_error w now_ms uncorrected threshold =
    if not (uncorrected == 0)
    then (w, pos 2)
    else (let w' = fallback_open_window now_ms w in
        let count = u32 (w'.count + 1) in
        (record w' { count = count }, if count == u32 threshold then pos 1 else pos 0))

-- The two sysctls, the core's counters, the taint, and the pages handed to memory_failure_queue.
pub record Sentinel : Type 0 where
  pub enabled : Bool
  pub threshold : ℕ
  pub windows : Windows
  pub tainted : Bool
  pub poisoned : List ℕ

abbrev pub boot : Sentinel
boot = record {
  enabled = true;
  threshold = 8;
  windows = record { start_ms = 0; count = 0 };
  tainted = false;
  poisoned = [];
}

-- What reaches the sentinel: a machine check at a time, and writes of the two sysctls.
pub data Event : Type 0 where
  logged : Mce → ℕ → Event
  set_enabled : Bool → Event
  set_threshold : ℕ → Event

module _ (k : Kernel) where
  -- `m->status & mask`
  unfoldable pub has_status : Mce → ℕ → Bool
  has_status m mask = not (bit_and m.status mask == 0)

  -- The `switch` on the action.
  unfoldable pub act : Mce → ℤ → Sentinel → Sentinel
  unfolding has_status
  act m (pos action) s =
      if action == 1
      then record s { tainted = true }
      else if action == 2
      then (if has_status m k.status_addrv
          then record s { poisoned = s.poisoned ++ (m.addr >>> k.page_shift) ∷ [] }
          else s)
      else s
  act m (negsuc action) s = s

  -- `rustlux_memsentinel_record` past its guards, when ktime_get_boottime_ns gives `now_ns`.
  unfoldable pub heed : SentinelCore → Mce → ℕ → Sentinel → Sentinel
  unfolding act has_status
  heed core m now_ns s =
      let uncorrected = if has_status m k.status_uc then 1 else 0 in
      let now_ms = now_ns / k.nsec_per_msec in
      let (windows, action) = core s.windows now_ms uncorrected s.threshold in
      act m action (record s { windows = windows })

  unfoldable pub record_mce : SentinelCore → Mce → ℕ → Sentinel → Sentinel
  unfolding heed
  record_mce core m now_ns s =
      if not s.enabled
      then s
      else if not (has_status m k.status_val)
      then s
      else if not (k.is_memory_error m)
      then s
      else heed core m now_ns s

  unfoldable pub handle : SentinelCore → Event → Sentinel → Sentinel
  unfolding record_mce
  handle core (logged m now_ns) s = record_mce core m now_ns s
  handle core (set_enabled enabled) s = record s { enabled = enabled }
  handle core (set_threshold written) s = record s {
    threshold = k.douintvec_minmax 1 s.threshold written;
  }

  unfoldable pub run : SentinelCore → List Event → Sentinel → Sentinel
  unfolding handle
  run core [] s = s
  run core (event ∷ events) s = run core events (handle core event s)
