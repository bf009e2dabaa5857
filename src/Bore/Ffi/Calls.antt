-- ===== src/Bore/Ffi/Calls.antt =====
-- rust/rustlux_sched/src/bore_ffi.rs: a BoreCtxFfi under any calls of a caller that has its layout.
use linux_rustlux.Base.{ℕ, ◌≤◌, sym, subst, not, ◌==◌, List, [], ◌∷◌}
use linux_rustlux.Bore.Params.{BoreParams, InRange}
use linux_rustlux.Bore.Context.{BoreCtx}
use linux_rustlux.Bore.Context.Valid.{IsValid, Reach, fresh, ticked, slept, marked, Reach-IsValid}
use linux_rustlux.Bore.Ffi.{
  BoreCtxFfi, BoreParamsFfi, params_from, ffi_to_ctx, bore_update_curr, bore_restart_burst,
  bore_reset,
}
use linux_rustlux.Bore.Ffi.Refines.{ffi-Refines}

-- What the caller does to a BoreCtxFfi: it calls an entry point, or writes the fields that no
-- entry point but the reset changes.
pub data Call : Type 0 where
  call_update : (delta_ns : ℕ) → Call
  call_restart : Call
  call_reset : Call
  write_fields : (stop_update futex_waiting subtree_value group_value : ℕ) → Call

unfoldable pub call : BoreParamsFfi → ℕ → Call → BoreCtxFfi → BoreCtxFfi
call params is_kthread (call_update delta_ns) ffi =
    (bore_update_curr ffi params delta_ns is_kthread).0
call params is_kthread call_restart ffi = bore_restart_burst ffi params is_kthread
call params is_kthread call_reset ffi = bore_reset ffi
call params is_kthread (write_fields stop_update futex_waiting subtree_value group_value) ffi =
    record ffi {
      stop_update = stop_update;
      futex_waiting = futex_waiting;
      subtree_value = subtree_value;
      group_value = group_value;
    }

unfoldable pub calls : BoreParamsFfi → ℕ → List Call → BoreCtxFfi → BoreCtxFfi
calls params is_kthread [] ffi = ffi
calls params is_kthread (x ∷ xs) ffi = calls params is_kthread xs (call params is_kthread x ffi)

-- The parameters as the caller hands them over.
abbrev pub handed : BoreParams → BoreParamsFfi
handed params = record {
  enabled = params.enabled;
  burst_inherit_type = params.burst_inherit_type;
  burst_smoothness = params.burst_smoothness;
  burst_penalty_offset = params.burst_penalty_offset;
  burst_penalty_scale = params.burst_penalty_scale;
  burst_cache_lifetime = params.burst_cache_lifetime_ns;
}

module _ (params : BoreParams) (is_kthread : ℕ) where
  -- The life of the task that the layout belongs to.
  abbrev Life : BoreCtx → Type 0
  Life = Reach params (not (is_kthread == 0))

  call-Life :
      (x : Call) (ffi : BoreCtxFfi)
      → Life (ffi_to_ctx ffi)
      → Life (ffi_to_ctx (call (handed params) is_kthread x ffi))
  unfolding call ffi_to_ctx params_from
  call-Life (call_update delta_ns) ffi r =
      subst Life (sym (ffi-Refines ffi (handed params) delta_ns is_kthread).0) (ticked delta_ns r)
  call-Life call_restart ffi r =
      subst Life (sym (ffi-Refines ffi (handed params) 0 is_kthread).2) (slept r)
  call-Life call_reset ffi r =
      subst Life (sym (ffi-Refines ffi (handed params) 0 is_kthread).3) fresh
  call-Life (write_fields stop futex subtree group) ffi r =
      marked (not (stop == 0)) (not (futex == 0)) (record { value = subtree })
        (record { value = group }) r

  calls-Life :
      (xs : List Call) (ffi : BoreCtxFfi)
      → Life (ffi_to_ctx ffi)
      → Life (ffi_to_ctx (calls (handed params) is_kthread xs ffi))
  unfolding calls
  calls-Life [] ffi r = r
  calls-Life (x ∷ xs) ffi r =
      calls-Life xs (call (handed params) is_kthread x ffi) (call-Life x ffi r)

-- For a caller that keeps a BoreCtxFfi and hands over parameters in their ranges: after a reset,
-- whatever entry points it calls and whatever it writes to the two flags and the two caches, the
-- BoreCtxFfi holds a valid context: its current penalty is that of its burst, its effective
-- penalty the larger of the previous and the current one (0 for a kernel thread), and its score
-- the high byte of that and at most 39.
pub calls-IsValid :
    (params : BoreParams) (is_kthread : ℕ) (xs : List Call) (ffi : BoreCtxFfi)
    → InRange params
    → IsValid params
        (not (is_kthread == 0))
        (ffi_to_ctx (calls (handed params) is_kthread (call_reset ∷ xs) ffi))
      × ((calls (handed params) is_kthread (call_reset ∷ xs) ffi).score ≤ 39)
unfolding calls call ffi_to_ctx
calls-IsValid params is_kthread xs ffi range = Reach-IsValid range (
    calls-Life params is_kthread xs (bore_reset ffi)
      (subst (Life params is_kthread) (sym (ffi-Refines ffi (handed params) 0 is_kthread).3) fresh))
