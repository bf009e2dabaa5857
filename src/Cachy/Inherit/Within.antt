-- ===== src/Cachy/Inherit/Within.antt =====
-- patches/0002-bore-cachy.patch: a penalty that is inherited is no larger than those it is made of.
use linux_rustlux.Base.{
  ℕ, ◌*◌, ◌/◌, ◌^◌, ◌≤◌, ◌<◌, max, ◌==◌, if◌then◌else◌, ◌>>>◌, ◌≡◌, refl, List, Option, none, some,
  either_way, arith,
}
use linux_rustlux.Bore.Params.{BoreParams}
use linux_rustlux.Bore.Cache.{BoreBc}
use linux_rustlux.Cachy.Inherit.{
  bc_penalty, bc_of, burst_cache_expired, store, read_back, update_burst_cache, Child,
  scan_children, inherit_from_parent,
}
use linux_rustlux.Cachy.Inherit.Scan.{AllUpTo, scan_children-InBounds}
use linux_rustlux.Cachy.Inherit.Same.{average-le, average_of-exact}

-- A cache of 64 bits whose penalty is within the limit.
abbrev pub IsCache : ℕ → BoreBc → Type 0
IsCache limit bc = (bc.value < 2 ^ 64) × (bc_penalty bc ≤ limit)

-- It did not fail, and gives the penalty of the cache that it leaves.
abbrev pub Within : ℕ → Option (BoreBc × ℕ) → Type 0
Within limit none = ⊥
Within limit (some (bc, penalty)) = IsCache limit bc × (penalty ≡ bc_penalty bc)

bc_of-IsCache :
    (limit timestamp penalty : ℕ)
    → limit ≤ 65535
    → penalty ≤ limit
    → IsCache limit (bc_of timestamp penalty)
unfolding bc_of bc_penalty
bc_of-IsCache limit timestamp penalty narrow small = omega arith

read_back-Within : (limit : ℕ) (bc : BoreBc) → IsCache limit bc → Within limit (read_back (some bc))
unfolding read_back
read_back-Within limit bc cache = (cache, refl)

module _ (limit : ℕ) (narrow : limit ≤ 65535) where
  update_burst_cache-Within :
      (penalty count total now : ℕ)
      → penalty ≤ limit
      → count ≤ 63
      → total ≤ count * limit
      → total ≤ count * 65535
      → Within limit (read_back (update_burst_cache penalty count total now))
  unfolding update_burst_cache store
  update_burst_cache-Within penalty count total now small few le wide =
      let average = if count == 0 then 0 else total / count in
      let held : average ≤ limit = average-le limit total count le in
      let larger : max average penalty ≤ limit = omega (arith, held) in
      let stored =
        read_back-Within limit (bc_of (now >>> 16) (max average penalty))
          (bc_of-IsCache limit (now >>> 16) (max average penalty) narrow larger) in
      rw (average_of-exact count total few wide) stored

  -- What each of the ways to inherit does with a cache, a penalty and the tasks it averages.
  pub inherit_from_parent-Within :
      (sysctls : BoreParams) (bc : BoreBc) (penalty : ℕ) (members : List Child) (now : ℕ)
      → IsCache limit bc
      → penalty ≤ limit
      → AllUpTo limit members
      → Within limit (inherit_from_parent sysctls bc penalty members now)
  unfolding inherit_from_parent
  inherit_from_parent-Within sysctls bc penalty members now cache small members_small =
      let (few, le) =
        scan_children-InBounds limit members 0 0 0 narrow members_small
          (omega arith, omega arith) in
      let (count, total) = scan_children members 0 0 0 in
      let wide : total ≤ count * 65535 = grind (arith, le) in
      either_way (Within limit) (burst_cache_expired sysctls bc now)
        (update_burst_cache-Within penalty count total now small few le wide)
        (read_back-Within limit bc cache)
