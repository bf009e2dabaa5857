-- ===== src/InTree.antt =====
-- patches/0005-rustlux-kernel-module.patch, which adds rust/kernel/rustlux.rs to the kernel: the
-- entry points as the kernel itself is built with. The crates under rust/ are their twins, which
-- Mirrors and Decisions compare them with.
pub mod Ecc
pub mod Mirrors
pub mod Decisions
pub mod Hooks
pub mod Guarded
mod Tests
use linux_rustlux.Base.{
  ℕ, zero, suc, ◌+◌, ◌/◌, ◌^◌, max, bit_and, bit_or, Bool, true, false, not, ◌||◌, ltb, ◌==◌,
  if◌then◌else◌, u32, ◌>>>◌, wrapping_sub64, ℤ, pos, negsuc,
}

abbrev pub s_isuid : ℕ
s_isuid = 0o4000

abbrev pub s_isgid : ℕ
s_isgid = 0o2000

abbrev pub fs_immutable_fl : ℕ
fs_immutable_fl = 0x10

unfoldable pub check_splice_write : ℕ → ℕ → ℕ → ℤ
check_splice_write i_mode i_flags sb_readonly =
    if not (bit_and i_mode (bit_or s_isuid s_isgid) == 0)
    then negsuc 0
    else if not (bit_and i_flags fs_immutable_fl == 0)
    then negsuc 0
    else if not (sb_readonly == 0)
    then negsuc 29
    else pos 0

-- `(cap_effective >> cap) & 1 == 1`
unfoldable pub capable : ℕ → ℕ → Bool
capable cap_effective cap = bit_and (cap_effective >>> cap) 1 == 1

abbrev pub cap_perfmon : ℕ
cap_perfmon = 38

abbrev pub cap_sys_admin : ℕ
cap_sys_admin = 21

-- The arms `p <= 0`, `1 | 2` and `_`.
unfoldable pub perf_event_allowed : ℕ → ℤ → ℕ
unfolding capable
perf_event_allowed cap_effective (negsuc n) = 1
perf_event_allowed cap_effective (pos level) =
    if level == 0
    then 1
    else if level == 1 || level == 2
    then (if capable cap_effective cap_perfmon
        then 1
        else if capable cap_effective cap_sys_admin
        then 1
        else 0)
    else if capable cap_effective cap_sys_admin
    then 1
    else 0

unfoldable pub tiocsti_allowed : ℕ → ℕ → ℕ
unfolding capable
tiocsti_allowed cap_effective same_tty =
    if not (same_tty == 0) then 1 else if capable cap_effective cap_sys_admin then 1 else 0

abbrev pub ms_window_ms : ℕ
ms_window_ms = 60_000

-- The statics MS_WINDOW_START and MS_WINDOW_COUNT.
pub record Windows : Type 0 where
  pub start_ms : ℕ
  pub count : ℕ

abbrev pub windows_init : Windows
windows_init = record { start_ms = 0; count = 0 }

-- The compare-exchange, which alone succeeds always, and the store of 0.
unfoldable pub open_window : ℕ → Windows → Windows
open_window now_ms w =
    let start = w.start_ms in
    if ltb ms_window_ms (wrapping_sub64 now_ms start)
    then (if w.start_ms == start then record { start_ms = now_ms; count = 0 } else w)
    else w

unfoldable pub memsentinel_on_error : Windows → ℕ → ℕ → ℕ → Windows × ℤ
unfolding open_window
memsentinel_on_error w now_ms uncorrected threshold =
    if not (uncorrected == 0)
    then (w, pos 2)
    else (let w' = open_window now_ms w in
        let count = u32 (w'.count + 1) in
        (record w' { count = count }, if count == max threshold 1 then pos 1 else pos 0))
