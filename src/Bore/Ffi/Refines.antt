-- ===== src/Bore/Ffi/Refines.antt =====
-- rust/rustlux_sched/src/bore_ffi.rs: the FFI does to a BoreCtxFfi what the Rust code does to the
-- context.
use linux_rustlux.Base.{ℕ, ◌≡◌, refl, not, ◌==◌, bit_of, arith}
use linux_rustlux.Bore.Context.{BoreCtx, new, update_curr, restart_burst}
use linux_rustlux.Bore.Ffi.{
  BoreCtxFfi, BoreParamsFfi, params_from, ffi_to_ctx, ctx_to_ffi, bore_update_curr,
  bore_restart_burst, bore_reset,
}

-- What is written to a BoreCtxFfi is read back as it was, and the padding is not touched.
ffi_to_ctx-ctx_to_ffi :
    (ctx : BoreCtx) (ffi : BoreCtxFfi)
    → (ffi_to_ctx (ctx_to_ffi ctx ffi) ≡ ctx)
      × ((ctx_to_ffi ctx ffi).pad ≡ ffi.pad)
      × ((ctx_to_ffi ctx ffi).pad2 ≡ ffi.pad2)
unfolding ffi_to_ctx ctx_to_ffi
ffi_to_ctx-ctx_to_ffi ctx ffi = (ground arith, refl, refl)

-- Read as a context, a BoreCtxFfi goes through an update, a restart and a reset as the
-- context goes through the Rust functions, and the update returns their flag.
pub ffi-Refines :
    (ffi : BoreCtxFfi) (params : BoreParamsFfi) (delta_ns is_kthread : ℕ)
    → let after = bore_update_curr ffi params delta_ns is_kthread in
      let meant =
        update_curr (ffi_to_ctx ffi) delta_ns (params_from params) (not (is_kthread == 0)) in
      (ffi_to_ctx after.0 ≡ meant.0)
      × (after.1 ≡ bit_of meant.1)
      × (ffi_to_ctx (bore_restart_burst ffi params is_kthread)
          ≡ restart_burst (ffi_to_ctx ffi) (params_from params) (not (is_kthread == 0)))
      × (ffi_to_ctx (bore_reset ffi) ≡ new)
unfolding bore_update_curr bore_restart_burst bore_reset
ffi-Refines ffi params delta_ns is_kthread = (
  (ffi_to_ctx-ctx_to_ffi _ ffi).0,
  refl,
  (ffi_to_ctx-ctx_to_ffi _ ffi).0,
  (ffi_to_ctx-ctx_to_ffi new ffi).0,
)
