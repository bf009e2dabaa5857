-- ===== src/Cachy.antt =====
-- patches/0002-bore-cachy.patch: the parts of kernel/sched/bore.c, by Masahito Suzuki, that the
-- comments of rust/rustlux_sched/src/bore.rs call equivalent to it. The sysctls are
-- `BoreParams`, with sched_bore_key for `enabled`. An `int` or `s32` is its bit pattern.
pub mod Arithmetic
pub mod Follows
pub mod Steady
pub mod Contexts
pub mod Runs
pub mod Inherit
pub mod Family
pub mod Fork
pub mod Sysctl
mod Tests
use linux_rustlux.Base.{
  ℕ, zero, suc, ◌+◌, ◌-◌, ◌*◌, ◌/◌, ◌%◌, ◌^◌, max, bit_and, bit_or, Bool, true, false, not, ltb,
  leb, ◌==◌, if◌then◌else◌, bit_of, u8, u16, u32, u64, ◌<<<◌, ◌>>>◌, wrapping_sub32, wrapping_sub64,
  List, [], ◌∷◌, Option, none, some, get_elem?,
}
use linux_rustlux.Bits.Lead.{leading_zeros}
use linux_rustlux.Bore.Cache.{BoreBc}
use linux_rustlux.Bore.Params.{BoreParams, max_burst_penalty, burst_cache_sample_limit}

-- For 0 < fp <= 64.
unfoldable pub log2p1_u64_u32fp : ℕ → ℕ → ℕ
log2p1_u64_u32fp v fp =
    if v == 0
    then 0
    else (let clz = leading_zeros 64 v in
        let exponent = 64 - clz in
        let mantissa = u32 (u64 (u64 (v <<< clz) <<< 1) >>> (64 - fp)) in
        bit_or (u32 (exponent <<< fp)) mantissa)

-- `x >> 31` of an `s32`.
unfoldable pub sign : ℕ → ℕ
sign x = if ltb x (2 ^ 31) then 0 else 2 ^ 32 - 1

unfoldable pub calc_burst_penalty : BoreParams → ℕ → ℕ
unfolding sign
calc_burst_penalty sysctls burst_time =
    let greed = log2p1_u64_u32fp burst_time 8 in
    let tolerance = u32 (sysctls.burst_penalty_offset <<< 8) in
    let diff = wrapping_sub32 greed tolerance in
    let penalty = bit_and diff (2 ^ 32 - 1 - sign diff) in
    let scaled_penalty = u32 (penalty * sysctls.burst_penalty_scale) >>> 10 in
    let overflow = wrapping_sub32 scaled_penalty max_burst_penalty in
    wrapping_sub32 scaled_penalty (bit_and overflow (2 ^ 32 - 1 - sign overflow))

-- `-is_growing` is all ones or 0, and `~` turns it round. The sysctl holds the shift to 3.
unfoldable pub binary_smooth : BoreParams → ℕ → ℕ → ℕ
binary_smooth sysctls new old =
    let is_growing = bit_of (ltb old new) in
    let increment = u32 (wrapping_sub32 new old * is_growing) in
    let shift = sysctls.burst_smoothness in
    let smoothed = u32 (old + (wrapping_sub32 (u32 (increment + u32 (1 <<< shift))) 1 >>> shift)) in
    let mask = wrapping_sub32 0 is_growing in
    bit_or (bit_and new (2 ^ 32 - 1 - mask)) (bit_and smoothed mask)

-- The union of `penalty` and its two bytes is its penalty.
pub record BoreCtx : Type 0 where
  pub burst_time : ℕ
  pub prev_penalty : ℕ
  pub curr_penalty : ℕ
  pub penalty : ℕ
  pub stop_update : Bool
  pub futex_waiting : Bool
  pub subtree : BoreBc
  pub group : BoreBc

abbrev pub score : BoreCtx → ℕ
score ctx = ctx.penalty >>> 8

-- `struct task_struct`, as far as it is read; `prio` is the index of its load weight.
pub record Task : Type 0 where
  pub bore : BoreCtx
  pub static_prio : ℕ
  pub is_kthread : Bool
  pub has_idle_policy : Bool
  pub on_rq : Bool
  pub prio : ℕ

-- The penalty of `update_penalty`.
unfoldable pub shown_penalty : Task → ℕ
unfolding sign
shown_penalty p =
    let ctx = p.bore in
    let diff = wrapping_sub32 ctx.curr_penalty ctx.prev_penalty in
    let max_val = u16 (wrapping_sub32 ctx.curr_penalty (bit_and diff (sign diff))) in
    u16 (bit_and max_val (wrapping_sub32 0 (bit_of (not p.is_kthread))))

-- What the scheduler tells BORE of one task: a tick of its execution, or its going to sleep.
pub data Event : Type 0 where
  ticked : ℕ → Event
  slept : Event

-- MAX_RT_PRIO is the kernel's.
module _ (max_rt_prio : ℕ) (sysctls : BoreParams) where
  unfoldable pub effective_prio_bore : Task → ℕ
  unfolding sign
  effective_prio_bore p =
      let offset = wrapping_sub32 p.static_prio max_rt_prio in
      let prio = if sysctls.enabled == 0 then offset else u32 (offset + score p.bore) in
      let prio' = bit_and prio (2 ^ 32 - 1 - sign prio) in
      let diff = wrapping_sub32 prio' 39 in
      u8 (wrapping_sub32 prio' (bit_and diff (2 ^ 32 - 1 - sign diff)))

  -- reweight_entity calls back into `update_curr_bore`, which `stop_update` then ends at once.
  unfoldable pub reweight_task_by_prio : Task → ℕ → Task
  reweight_task_by_prio p prio =
      if p.has_idle_policy
      then p
      else if p.on_rq
      then record p { bore = record p.bore { stop_update = false }; prio = prio }
      else record p { prio = prio }

  unfoldable pub update_penalty : Task → Task
  update_penalty p =
      let prev_prio = effective_prio_bore p in
      let p' : Task = record p { bore = record p.bore { penalty = shown_penalty p } } in
      let new_prio = effective_prio_bore p' in
      if new_prio == prev_prio then p' else reweight_task_by_prio p' new_prio

  unfoldable pub update_curr_bore : Task → ℕ → Task
  update_curr_bore p delta_exec =
      if p.bore.stop_update
      then p
      else (let burst_time = u64 (p.bore.burst_time + delta_exec) in
          let curr_penalty = u16 (calc_burst_penalty sysctls burst_time) in
          let p' : Task = record p {
            bore = record p.bore { burst_time = burst_time; curr_penalty = curr_penalty };
          } in
          if leb curr_penalty p.bore.prev_penalty then p' else update_penalty p')

  unfoldable pub restart_burst_bore : Task → Task
  restart_burst_bore p =
      let new_penalty = binary_smooth sysctls p.bore.curr_penalty p.bore.prev_penalty in
      update_penalty (record p {
        bore = record p.bore { prev_penalty = u16 new_penalty; curr_penalty = 0; burst_time = 0 };
      })

  unfoldable pub run : Task → List Event → Task
  run p [] = p
  run p (ticked delta_exec ∷ events) = run (update_curr_bore p delta_exec) events
  run p (slept ∷ events) = run (restart_burst_bore p) events
