-- ===== src/Cachy/Sysctl/Off.antt =====
-- patches/0002-bore-cachy.patch: while BORE is off, no tick and no sleep changes a task's weight.
use linux_rustlux.Base.{
  ℕ, ◌+◌, true, ◌==◌, leb, u16, u64, ◌≡◌, refl, ◌∙◌, List, [], ◌∷◌, either_way, arith,
}
use linux_rustlux.Bore.Params.{BoreParams}
use linux_rustlux.Cachy.{
  calc_burst_penalty, binary_smooth, BoreCtx, Task, Event, ticked, slept, shown_penalty,
  effective_prio_bore, update_penalty, update_curr_bore, restart_burst_bore, run,
}

module _ (max_rt_prio : ℕ) (sysctls : BoreParams) (off : (sysctls.enabled == 0) ≡ true) where
  effective_prio_bore-off :
      (p : Task) (ctx : BoreCtx)
      → effective_prio_bore max_rt_prio sysctls (record p { bore = ctx })
        ≡ effective_prio_bore max_rt_prio sysctls p
  unfolding effective_prio_bore
  effective_prio_bore-off p ctx = rw off refl

  update_penalty-off : (p : Task) → (update_penalty max_rt_prio sysctls p).prio ≡ p.prio
  unfolding update_penalty
  update_penalty-off p =
      ground (arith, effective_prio_bore-off p (record p.bore { penalty = shown_penalty p }))

  update_curr_bore-off :
      (p : Task) (delta_exec : ℕ)
      → (update_curr_bore max_rt_prio sysctls p delta_exec).prio ≡ p.prio
  unfolding update_curr_bore
  update_curr_bore-off p delta_exec =
      let burst_time = u64 (p.bore.burst_time + delta_exec) in
      let p' : Task = record p {
        bore = record p.bore {
          burst_time = burst_time;
          curr_penalty = u16 (calc_burst_penalty sysctls burst_time);
        };
      } in
      either_way (λ (q : Task). q.prio ≡ p.prio) p.bore.stop_update refl
        (either_way (λ (q : Task). q.prio ≡ p.prio) (leb p'.bore.curr_penalty p.bore.prev_penalty)
          refl (update_penalty-off p'))

  restart_burst_bore-off : (p : Task) → (restart_burst_bore max_rt_prio sysctls p).prio ≡ p.prio
  unfolding restart_burst_bore
  restart_burst_bore-off p = update_penalty-off (record p {
    bore = record p.bore {
      prev_penalty = u16 (binary_smooth sysctls p.bore.curr_penalty p.bore.prev_penalty);
      curr_penalty = 0;
      burst_time = 0;
    };
  })

  pub run-off : (p : Task) (events : List Event) → (run max_rt_prio sysctls p events).prio ≡ p.prio
  unfolding run
  run-off p [] = refl
  run-off p (ticked delta_exec ∷ events) =
      run-off (update_curr_bore max_rt_prio sysctls p delta_exec) events
      ∙ update_curr_bore-off p delta_exec
  run-off p (slept ∷ events) =
      run-off (restart_burst_bore max_rt_prio sysctls p) events ∙ restart_burst_bore-off p
