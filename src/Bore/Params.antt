-- ===== src/Bore/Params.antt =====
-- rust/rustlux_sched/src/params.rs: the constants and the tunable parameters.
use linux_rustlux.Base.{ℕ, ◌-◌, ◌*◌, ◌^◌, ◌≤◌, ◌<◌, ◌<<<◌}

abbrev pub max_burst_penalty : ℕ
max_burst_penalty = (40 <<< 8) - 1

abbrev pub burst_cache_sample_limit : ℕ
burst_cache_sample_limit = 63

abbrev pub burst_cache_scan_limit : ℕ
burst_cache_scan_limit = burst_cache_sample_limit * 2

abbrev pub bore_bc_timestamp_shift : ℕ
bore_bc_timestamp_shift = 16

pub record BoreParams : Type 0 where
  pub enabled : ℕ
  pub burst_inherit_type : ℕ
  pub burst_smoothness : ℕ
  pub burst_penalty_offset : ℕ
  pub burst_penalty_scale : ℕ
  pub burst_cache_lifetime_ns : ℕ

abbrev pub params_default : BoreParams
params_default = record {
  enabled = 1;
  burst_inherit_type = 2;
  burst_smoothness = 1;
  burst_penalty_offset = 24;
  burst_penalty_scale = 1536;
  burst_cache_lifetime_ns = 75_000_000;
}

-- The ranges that the comments give for smoothness and scale; an offset is a byte.
pub record InRange (params : BoreParams) : Type 0 where
  pub smoothness : params.burst_smoothness ≤ 3
  pub offset : params.burst_penalty_offset < 2 ^ 8
  pub scale : params.burst_penalty_scale ≤ 4095
