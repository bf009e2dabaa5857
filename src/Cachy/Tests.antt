-- ===== src/Cachy/Tests.antt =====
-- patches/0002-bore-cachy.patch: a task's life in bore.c, at concrete times.
use linux_rustlux.Base.{
  max, if◌then◌else◌, some, ◌≤◌, ◌>>>◌, ◌==◌, ◌≡◌, refl, true, false, List, [], ◌∷◌, arith,
}
use linux_rustlux.Bits.Lead.{leading_zeros}
use linux_rustlux.Bore.Params.{params_default}
use linux_rustlux.Cachy.{
  Task, log2p1_u64_u32fp, calc_burst_penalty, effective_prio_bore, reweight_task_by_prio,
  shown_penalty, update_penalty, update_curr_bore,
}
use mathlib.Core.Option
use linux_rustlux.Bore.Cache.{pack, penalty_of, is_expired}
use linux_rustlux.Bore.Average.{build_reciprocal_lut, average_penalty}
use linux_rustlux.Cachy.Inherit.{Child, bc_of, scan_children, inherit_from_parent}
use linux_rustlux.Cachy.Inherit.Scan.{AllPenalties}
use linux_rustlux.Cachy.Inherit.Same.{as_bc, as_inherited, inherit_from_parent-same}

-- Static priority 120 is nice 0, and 100 is MAX_RT_PRIO.
abbrev new_task : Task
new_task = record {
  bore = record {
    burst_time = 0;
    prev_penalty = 0;
    curr_penalty = 0;
    penalty = 0;
    stop_update = false;
    futex_waiting = false;
    subtree = record { value = 0 };
    group = record { value = 0 };
  };
  static_prio = 120;
  is_kthread = false;
  has_idle_policy = false;
  on_rq = true;
  prio = 20;
}

-- After five seconds the task weighs as nice 13 does.
late_prio : (update_curr_bore 100 params_default new_task 5_000_000_000).prio ≡ 33
unfolding update_curr_bore update_penalty shown_penalty reweight_task_by_prio effective_prio_bore
    calc_burst_penalty log2p1_u64_u32fp leading_zeros
late_prio = refl

-- Three children of a parent with penalty 900, one of them on its way out, when the cache has
-- expired.
abbrev family : List Child
family =
    (record { penalty = 1_000; is_eligible = true })
    ∷ (record { penalty = 9_999; is_eligible = false })
    ∷ (record { penalty = 1_501; is_eligible = true })
    ∷ []

family-AllPenalties : AllPenalties family
family-AllPenalties = (omega arith, (omega arith, (omega arith, tt)))

family_scan : scan_children family 0 0 0 ≡ (2, 2_501)
unfolding scan_children
family_scan = refl

-- The same time stamp and penalty, in other bits.
other_bits : ((bc_of (1_000_000_000 >>> 16) 300).value == (pack 1_000_000_000 300).value) ≡ false
unfolding bc_of pack
other_bits = refl

inherit_from_parent-same_example :
    let cached =
      if is_expired (as_bc (record { value = 0 })) 1_000_000_000 75_000_000
      then pack 1_000_000_000 (max 1_250 900)
      else as_bc (record { value = 0 }) in
    (2 ≤ 63)
    × (average_penalty 2_501 2 build_reciprocal_lut ≡ some 1_250)
    × (Option.map as_inherited
          (inherit_from_parent params_default (record { value = 0 }) 900 family 1_000_000_000)
        ≡ some (cached, penalty_of cached))
unfolding scan_children
inherit_from_parent-same_example =
    inherit_from_parent-same params_default (record { value = 0 }) 900 family 1_000_000_000
      (omega arith) (omega arith) family-AllPenalties (omega arith)
