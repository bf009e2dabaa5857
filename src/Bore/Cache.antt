-- ===== src/Bore/Cache.antt =====
-- rust/rustlux_sched/src/bore.rs: `BoreBc`, a time stamp and a penalty in one 64-bit word.
pub mod Packed
use linux_rustlux.Base.{
  ℕ, ◌+◌, ◌-◌, ◌*◌, ◌/◌, ◌%◌, ◌^◌, bit_or, Bool, ltb, u16, u64, ◌<<<◌, ◌>>>◌, wrapping_sub64,
}
use linux_rustlux.Bore.Params.{bore_bc_timestamp_shift}

pub record BoreBc : Type 0 where
  pub value : ℕ

unfoldable pub timestamp : BoreBc → ℕ
timestamp bc = u64 ((bc.value >>> bore_bc_timestamp_shift) <<< bore_bc_timestamp_shift)

unfoldable pub penalty_of : BoreBc → ℕ
penalty_of bc = u16 bc.value

unfoldable pub pack : ℕ → ℕ → BoreBc
pack timestamp_ns penalty =
    let ts_shifted = timestamp_ns >>> bore_bc_timestamp_shift in
    record { value = bit_or (u64 (ts_shifted <<< bore_bc_timestamp_shift)) penalty }

unfoldable pub is_expired : BoreBc → ℕ → ℕ → Bool
unfolding timestamp
is_expired bc now_ns lifetime_ns = ltb lifetime_ns (wrapping_sub64 now_ns (timestamp bc))
