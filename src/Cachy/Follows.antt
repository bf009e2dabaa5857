-- ===== src/Cachy/Follows.antt =====
-- patches/0002-bore-cachy.patch: the effective priority of bore.c, and what its `update_penalty`
-- leaves.
use linux_rustlux.Base.{
  ℕ, ◌+◌, ◌-◌, ◌%◌, ◌^◌, ◌≤◌, ◌<◌, min, max, bit_and, Bool, true, false, not, ◌==◌, if◌then◌else◌,
  bit_of, u8, u16, wrapping_sub32, ◌≡◌, refl, arith,
}
use linux_rustlux.Bits.And.{and-mask, and-zero}
use linux_rustlux.Bore.Params.{BoreParams}
use linux_rustlux.Bore.Penalty.{keep_positive, keep_negative, effective_prio}
use linux_rustlux.Bore.Penalty.Calc.{keep_positive_lem}
use linux_rustlux.Cachy.{
  Task, score, shown_penalty, effective_prio_bore, reweight_task_by_prio, update_penalty,
}

-- Holding a number to 0 and 39 by its sign bits.
clamp_lem :
    (x : ℕ)
    → x < 2 ^ 31
    → u8 (wrapping_sub32 (keep_positive x) (keep_positive (wrapping_sub32 (keep_positive x) 39)))
      ≡ u8 (min x 39)
clamp_lem x h =
    rw (keep_positive_lem x (omega arith)) (ground (arith, keep_positive_lem (wrapping_sub32 x 39)))

mask_lem :
    (b : Bool) (x : ℕ) → bit_and x (wrapping_sub32 0 (bit_of b)) ≡ (if b then x % 2 ^ 32 else 0)
mask_lem true x = and-mask 32 x
mask_lem false x = and-zero x

-- `a - (d & (d >> 31))` of the difference `d` of `a` and `b`.
larger_lem :
    (a b : ℕ)
    → a < 2 ^ 16
    → b < 2 ^ 16
    → u16 (wrapping_sub32 a (keep_negative (wrapping_sub32 a b))) ≡ max a b
unfolding keep_negative
larger_lem a b ha hb =
    ground (arith, and-mask 32 (wrapping_sub32 a b), and-zero (wrapping_sub32 a b))

pub shown_penalty_lem :
    (p : Task)
    → p.bore.curr_penalty < 2 ^ 16
    → p.bore.prev_penalty < 2 ^ 16
    → shown_penalty p ≡ (if p.is_kthread then 0 else max p.bore.curr_penalty p.bore.prev_penalty)
unfolding shown_penalty keep_negative
shown_penalty_lem p hc hp =
    rw
      (
        mask_lem (not p.is_kthread) (
            u16 (
              wrapping_sub32 p.bore.curr_penalty
                (keep_negative (wrapping_sub32 p.bore.curr_penalty p.bore.prev_penalty)))),
        larger_lem p.bore.curr_penalty p.bore.prev_penalty hc hp,
      )
      (ground arith)

module _ (max_rt_prio : ℕ) (sysctls : BoreParams) where
  -- Nice values are -20 to 19.
  abbrev pub IsNice : Task → Type 0
  IsNice p =
      (max_rt_prio ≤ p.static_prio) × (p.static_prio < max_rt_prio + 40) × (p.bore.penalty < 2 ^ 16)

  pub effective_prio_bore-same :
      (p : Task)
      → max_rt_prio < 2 ^ 31
      → IsNice p
      → effective_prio_bore max_rt_prio sysctls p
        ≡ effective_prio (p.static_prio - max_rt_prio) (score p.bore) (not (sysctls.enabled == 0))
  unfolding effective_prio_bore effective_prio keep_positive
  effective_prio_bore-same p small nice =
      let offset = p.static_prio - max_rt_prio in
      ground (arith, clamp_lem offset, clamp_lem (offset + score p.bore))

  pub update_penalty-bore :
      (p : Task)
      → p.bore.stop_update ≡ false
      → (update_penalty max_rt_prio sysctls p).bore ≡ record p.bore { penalty = shown_penalty p }
  unfolding update_penalty reweight_task_by_prio
  update_penalty-bore p runs = ground (arith)

  pub effective_prio_bore-read :
      (p q : Task)
      → p.static_prio ≡ q.static_prio
      → p.bore.penalty ≡ q.bore.penalty
      → effective_prio_bore max_rt_prio sysctls p ≡ effective_prio_bore max_rt_prio sysctls q
  unfolding effective_prio_bore
  effective_prio_bore-read p q hs hp = rw (hs, hp) refl

  reweight_task_by_prio-prio :
      (p : Task) (prio : ℕ)
      → effective_prio_bore max_rt_prio sysctls (reweight_task_by_prio max_rt_prio sysctls p prio)
        ≡ effective_prio_bore max_rt_prio sysctls p
  unfolding reweight_task_by_prio
  reweight_task_by_prio-prio p prio =
      effective_prio_bore-read (reweight_task_by_prio max_rt_prio sysctls p prio) p (ground arith)
        (ground arith)

  pub update_penalty-prio :
      (p : Task)
      → p.has_idle_policy ≡ false
      → p.prio ≡ effective_prio_bore max_rt_prio sysctls p
      → let p' = update_penalty max_rt_prio sysctls p in
        p'.prio ≡ effective_prio_bore max_rt_prio sysctls p'
  unfolding update_penalty reweight_task_by_prio
  update_penalty-prio p busy step =
      let p' : Task = record p { bore = record p.bore { penalty = shown_penalty p } } in
      ground (arith, reweight_task_by_prio-prio p' (effective_prio_bore max_rt_prio sysctls p'))
