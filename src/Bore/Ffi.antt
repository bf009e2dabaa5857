-- ===== src/Bore/Ffi.antt =====
-- rust/rustlux_sched/src/bore_ffi.rs: the contexts and parameters that C hands to the Rust code,
-- laid out as BoreCtxFfi and BoreParamsFfi. A pointer that the caller guarantees to be valid is the
-- record behind it, which is handed through. Layout has what is behind it if that is a
-- struct bore_ctx of bore.c.
pub mod Refines
pub mod Calls
pub mod Layout
use linux_rustlux.Base.{ℕ, Bool, not, ◌==◌, bit_of, List}
use linux_rustlux.Bore.Params.{BoreParams}
use linux_rustlux.Bore.Cache.{BoreBc}
use linux_rustlux.Bore.Penalty.{calc_burst_penalty, effective_prio}
use linux_rustlux.Bore.Context.{BoreCtx, new, update_curr, restart_burst}

pub record BoreCtxFfi : Type 0 where
  pub burst_time : ℕ
  pub prev_penalty : ℕ
  pub curr_penalty : ℕ
  pub penalty : ℕ
  pub score : ℕ
  pub pad : ℕ
  pub stop_update : ℕ
  pub futex_waiting : ℕ
  pub pad2 : List ℕ
  pub subtree_value : ℕ
  pub group_value : ℕ

pub record BoreParamsFfi : Type 0 where
  pub enabled : ℕ
  pub burst_inherit_type : ℕ
  pub burst_smoothness : ℕ
  pub burst_penalty_offset : ℕ
  pub burst_penalty_scale : ℕ
  pub burst_cache_lifetime : ℕ

unfoldable pub params_from : BoreParamsFfi → BoreParams
params_from ffi = record {
  enabled = ffi.enabled;
  burst_inherit_type = ffi.burst_inherit_type;
  burst_smoothness = ffi.burst_smoothness;
  burst_penalty_offset = ffi.burst_penalty_offset;
  burst_penalty_scale = ffi.burst_penalty_scale;
  burst_cache_lifetime_ns = ffi.burst_cache_lifetime;
}

unfoldable pub ffi_to_ctx : BoreCtxFfi → BoreCtx
ffi_to_ctx ffi = record {
  burst_time = ffi.burst_time;
  prev_penalty = ffi.prev_penalty;
  curr_penalty = ffi.curr_penalty;
  penalty = ffi.penalty;
  score = ffi.score;
  stop_update = not (ffi.stop_update == 0);
  futex_waiting = not (ffi.futex_waiting == 0);
  subtree = record { value = ffi.subtree_value };
  group = record { value = ffi.group_value };
}

unfoldable pub ctx_to_ffi : BoreCtx → BoreCtxFfi → BoreCtxFfi
ctx_to_ffi ctx ffi = record ffi {
  burst_time = ctx.burst_time;
  prev_penalty = ctx.prev_penalty;
  curr_penalty = ctx.curr_penalty;
  penalty = ctx.penalty;
  score = ctx.score;
  stop_update = bit_of ctx.stop_update;
  futex_waiting = bit_of ctx.futex_waiting;
  subtree_value = ctx.subtree.value;
  group_value = ctx.group.value;
}

unfoldable pub bore_update_curr : BoreCtxFfi → BoreParamsFfi → ℕ → ℕ → BoreCtxFfi × ℕ
bore_update_curr ffi_ctx ffi_params delta_ns is_kthread =
    let (ctx, changed) =
      update_curr (ffi_to_ctx ffi_ctx) delta_ns (params_from ffi_params) (not (is_kthread == 0)) in
    (ctx_to_ffi ctx ffi_ctx, bit_of changed)

unfoldable pub bore_restart_burst : BoreCtxFfi → BoreParamsFfi → ℕ → BoreCtxFfi
bore_restart_burst ffi_ctx ffi_params is_kthread =
    let ctx = restart_burst (ffi_to_ctx ffi_ctx) (params_from ffi_params) (not (is_kthread == 0)) in
    ctx_to_ffi ctx ffi_ctx

unfoldable pub bore_effective_prio : ℕ → ℕ → ℕ → ℕ
bore_effective_prio static_prio_offset score bore_enabled =
    effective_prio static_prio_offset score (not (bore_enabled == 0))

unfoldable pub bore_calc_penalty : ℕ → BoreParamsFfi → ℕ
bore_calc_penalty burst_time ffi_params = calc_burst_penalty burst_time (params_from ffi_params)

unfoldable pub bore_reset : BoreCtxFfi → BoreCtxFfi
bore_reset ffi_ctx = ctx_to_ffi new ffi_ctx
