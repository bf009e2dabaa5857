-- ===== src/Bore/Average.antt =====
-- rust/rustlux_sched/src/bore.rs: the table of reciprocals, and averages without a division.
pub mod Exact
use linux_rustlux.Base.{
  ℕ, zero, suc, ◌+◌, ◌*◌, ◌/◌, ◌%◌, ◌^◌, min, ◌==◌, if◌then◌else◌, u32, u64, ◌>>>◌, Option, none,
  some, List, [], ◌∷◌, get_elem?,
}
use linux_rustlux.Bore.Params.{burst_cache_sample_limit}

-- `for i in 1..=BURST_CACHE_SAMPLE_LIMIT`, at `i` with `left` rounds to go: `lut[i]` and on.
unfoldable pub lut_loop : ℕ → ℕ → List ℕ
lut_loop zero i = []
lut_loop (suc left) i = u32 ((0xffff_ffff + i) / i) ∷ lut_loop left (i + 1)

unfoldable pub build_reciprocal_lut : List ℕ
build_reciprocal_lut = 0 ∷ lut_loop burst_cache_sample_limit 1

-- `none` is the panic of an index beyond the table.
unfoldable pub average_penalty : ℕ → ℕ → List ℕ → Option ℕ
average_penalty total count lut =
    if count == 0
    then some 0
    else if count == 1
    then some total
    else elim (get_elem? lut (min count burst_cache_sample_limit)) [
      | none ↦ none
      | some recip ↦ some (u32 (u64 (total * recip) >>> 32))
    ]
