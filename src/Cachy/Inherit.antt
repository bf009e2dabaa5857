-- ===== src/Cachy/Inherit.antt =====
-- patches/0002-bore-cachy.patch: the cache of the average penalty of a task's children, which a new
-- task inherits from. A `struct bore_bc` is its value; the compilers of x86-64 put the first of its
-- bit fields, the time stamp, lowest. Whether a child is eligible is the kernel's to say.
pub mod Scan
pub mod Same
pub mod Within
use linux_rustlux.Base.{
  ℕ, zero, suc, ◌+◌, ◌-◌, ◌*◌, ◌/◌, ◌%◌, ◌^◌, max, Bool, not, ltb, leb, ◌==◌, if◌then◌else◌, u16,
  u32, u64, ◌<<<◌, ◌>>>◌, wrapping_sub64, List, [], ◌∷◌, Option, none, some, get_elem?,
}
use linux_rustlux.Bore.Params.{
  BoreParams, burst_cache_sample_limit, burst_cache_scan_limit, bore_bc_timestamp_shift,
}
use linux_rustlux.Bore.Cache.{BoreBc}

unfoldable pub bc_timestamp : BoreBc → ℕ
bc_timestamp bc = bc.value % 2 ^ 48

unfoldable pub bc_penalty : BoreBc → ℕ
bc_penalty bc = bc.value >>> 48

-- A value of the two fields, each cut to its width.
unfoldable pub bc_of : ℕ → ℕ → BoreBc
bc_of timestamp penalty = record { value = timestamp % 2 ^ 48 + (u16 penalty <<< 48) }

-- The loop of `sched_init_bore` at `i`, with `left` rounds to go; entry 0 stays 0.
unfoldable pub fill_lut : ℕ → ℕ → List ℕ
fill_lut zero i = []
fill_lut (suc left) i = u32 ((0xffff_ffff + i) / i) ∷ fill_lut left (i + 1)

unfoldable pub bore_reciprocal_lut : List ℕ
bore_reciprocal_lut = 0 ∷ fill_lut burst_cache_sample_limit 1

unfoldable pub burst_cache_expired : BoreParams → BoreBc → ℕ → Bool
unfolding bc_timestamp
burst_cache_expired sysctls bc now =
    let timestamp = u64 (bc_timestamp bc <<< bore_bc_timestamp_shift) in
    ltb sysctls.burst_cache_lifetime_ns (wrapping_sub64 now timestamp)

-- `none` is an index beyond the table.
unfoldable pub average_of : ℕ → ℕ → Option ℕ
average_of count total =
    if count == 1 then some total else elim (get_elem? bore_reciprocal_lut count) [
      | none ↦ none
      | some recip ↦ some (u32 (u64 (total * recip) >>> 32))
    ]

-- What is stored of an average, beside the penalty of the task whose cache it is.
unfoldable pub store : ℕ → ℕ → Option ℕ → Option BoreBc
unfolding bc_of
store penalty now none = none
store penalty now (some average) =
    some (bc_of (now >>> bore_bc_timestamp_shift) (max average penalty))

unfoldable pub update_burst_cache : ℕ → ℕ → ℕ → ℕ → Option BoreBc
unfolding average_of store
update_burst_cache penalty count total now = store penalty now (average_of count total)

pub record Child : Type 0 where
  pub penalty : ℕ
  pub is_eligible : Bool

-- `for_each_child_task`: the count and the total.
unfoldable pub scan_children : List Child → ℕ → ℕ → ℕ → ℕ × ℕ
scan_children [] count total scan_count = (count, total)
scan_children (child ∷ children) count total scan_count =
    let skipped = scan_children children count total (scan_count + 1) in
    let counted =
      scan_children children (count + 1) (u32 (total + child.penalty)) (scan_count + 1) in
    if leb burst_cache_sample_limit count
    then (count, total)
    else if leb burst_cache_scan_limit scan_count
    then (count, total)
    else if not child.is_eligible
    then skipped
    else counted

-- The cache is read again after it may have been stored.
unfoldable pub read_back : Option BoreBc → Option (BoreBc × ℕ)
unfolding bc_penalty
read_back none = none
read_back (some bc) = some (bc, bc_penalty bc)

-- The cache of the parent that the clone flags choose, and the penalty that it gives.
unfoldable pub inherit_from_parent : BoreParams → BoreBc → ℕ → List Child → ℕ → Option (BoreBc × ℕ)
unfolding burst_cache_expired update_burst_cache scan_children read_back
inherit_from_parent sysctls bc penalty children now =
    let (count, total) = scan_children children 0 0 0 in
    if burst_cache_expired sysctls bc now
    then read_back (update_burst_cache penalty count total now)
    else read_back (some bc)
