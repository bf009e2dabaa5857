-- ===== src/Cachy/Fork/Tests.antt =====
-- patches/0002-bore-cachy.patch: a fork at a concrete time. The new task is a copy of one with a
-- previous penalty of 700, and its maker's parent has two children.
use linux_rustlux.Base.{
  ℕ, true, false, not, ◌==◌, ◌≤◌, ◌-◌, ◌≡◌, refl, List, [], ◌∷◌, some, get_elem?, set, arith,
}
use linux_rustlux.Bore.Params.{params_default, max_burst_penalty}
use linux_rustlux.Bore.Penalty.{effective_prio}
use linux_rustlux.Cachy.{Task, Event, ticked, slept, effective_prio_bore, run}
use linux_rustlux.Cachy.Contexts.{as_ctx}
use linux_rustlux.Cachy.Runs.{rust_run}
use linux_rustlux.Bore.Cache.{BoreBc}
use linux_rustlux.Cachy.Inherit.{
  bc_penalty, bc_of, bc_timestamp, average_of, bore_reciprocal_lut, fill_lut, scan_children,
  burst_cache_expired, update_burst_cache, store, read_back, inherit_from_parent,
}
use linux_rustlux.Cachy.Family.{
  Processes, process, no_more, child, descendants, Ancestor, ancestor_hub, count_children_upto2,
  hub_above, at_ancestor, inherit_from_hub, inherit_from_ancestor_hub, CloneFlags, Family,
  InheritKeys, update_inherit_type,
}
use linux_rustlux.Cachy.Family.Bounded.{LineUpTo, ProcessUpTo}
use linux_rustlux.Cachy.Family.Hub.{IsHubOf, inherit_from_ancestor_hub_lem}
use linux_rustlux.Cachy.Fork.{inherit, task_fork_bore}
use linux_rustlux.Cachy.Fork.Inherits.{FamilyUpTo}
use linux_rustlux.Cachy.Fork.NewTask.{IsCopy, begun, task_fork_bore_lem}

-- Static priority 120 is nice 0, and 100 is MAX_RT_PRIO; a score of 2 is weighed.
abbrev copy : Task
copy = record {
  bore = record {
    burst_time = 1_000;
    prev_penalty = 700;
    curr_penalty = 0;
    penalty = 700;
    stop_update = false;
    futex_waiting = true;
    subtree = record { value = 0 };
    group = record { value = 0 };
  };
  static_prio = 120;
  is_kthread = false;
  has_idle_policy = false;
  on_rq = false;
  prio = 22;
}

-- One of the two children has a single child, whose penalty stands for it.
abbrev children : Processes
children =
    child (process 300 true (child (process 2_000 true no_more) no_more))
      (child (process 1_000 true no_more) no_more)

abbrev line : List Ancestor
line =
    (record { subtree = record { value = 0 }; penalty = 700; children = no_more })
    ∷ (record { subtree = record { value = 0 }; penalty = 900; children = children })
    ∷ []

abbrev family : Family
family = record {
  leader = record {
    group = record { value = 0 };
    leader_penalty = 700;
    threads = (record { penalty = 700; is_eligible = true }) ∷ [];
  };
  line = line;
}

-- sched_burst_inherit_type is 2.
abbrev keys : InheritKeys
keys = record { burst_inherit = true; burst_ancestor = true }

keys_of_2 : update_inherit_type 2 (record { burst_inherit = false; burst_ancestor = false }) ≡ keys
unfolding update_inherit_type
keys_of_2 = refl

abbrev flags : CloneFlags
flags = record { clone_thread = false; clone_parent = false }

hub_is_second : ancestor_hub false line ≡ 1
unfolding ancestor_hub
hub_is_second = refl

line-LineUpTo : LineUpTo 65535 line
unfolding bc_penalty ProcessUpTo
line-LineUpTo = (
  record { cached = (omega arith, omega arith); small = omega arith; below = tt },
  (
    record {
      cached = (omega arith, omega arith);
      small = omega arith;
      below = ((omega arith, ((omega arith, tt), tt)), ((omega arith, tt), tt));
    },
    tt,
  ),
)

inherit_from_ancestor_hub_lem_example :
    let n = ancestor_hub false line in
    IsHubOf false line n
    × ((hub : Ancestor) × (bc : BoreBc) × (get_elem? line n ≡ some hub)
        × (inherit_from_parent params_default hub.subtree hub.penalty
              (descendants hub.children)
              1_000_000_000
            ≡ some (bc, bc_penalty bc))
        × (inherit_from_ancestor_hub params_default false line 1_000_000_000
            ≡ some (set line n (record hub { subtree = bc }), bc_penalty bc)))
inherit_from_ancestor_hub_lem_example =
    inherit_from_ancestor_hub_lem params_default false line 1_000_000_000 (omega arith)
      line-LineUpTo

-- The average of 2000 and 1000 is more than the 900 of the hub.
inherited_1500 :
    inherit_from_ancestor_hub params_default false line 1_000_000_000
    ≡ some (
      set line 1 (record { subtree = bc_of 15_258 1_500; penalty = 900; children = children }),
      1_500,
    )
unfolding inherit_from_ancestor_hub bc_of average_of bore_reciprocal_lut fill_lut bc_penalty
    count_children_upto2 hub_above at_ancestor inherit_from_hub scan_children burst_cache_expired
    bc_timestamp update_burst_cache store read_back
inherited_1500 = refl

copy-IsCopy : IsCopy 100 params_default copy
unfolding effective_prio_bore
copy-IsCopy = record { previous = omega arith; busy = refl; weighs = refl }

family-FamilyUpTo : FamilyUpTo max_burst_penalty family
unfolding bc_penalty ProcessUpTo
family-FamilyUpTo = record {
  group = record {
    cached = (omega arith, omega arith);
    small = omega arith;
    members = (omega arith, tt);
  };
  ancestors = (
    record { cached = (omega arith, omega arith); small = omega arith; below = tt },
    (
      record {
        cached = (omega arith, omega arith);
        small = omega arith;
        below = ((omega arith, ((omega arith, tt), tt)), ((omega arith, tt), tt));
      },
      tt,
    ),
  );
  has_parent = omega arith;
}

abbrev life : List Event
life = ticked 5_000_000_000 ∷ slept ∷ ticked 900_000_000 ∷ []

task_fork_bore_lem_example :
    (family' : Family) × (penalty : ℕ) × (new_task : Task) × (inherit params_default keys flags
        family 1_000_000_000
      ≡ some (family', penalty))
    × (penalty ≤ max_burst_penalty)
    × FamilyUpTo max_burst_penalty family'
    × (task_fork_bore 100 params_default keys copy true flags family 1_000_000_000
        ≡ some (family', new_task))
    × (as_ctx new_task.bore ≡ begun false (as_ctx copy.bore) penalty)
    × (let p' = run 100 params_default new_task life in
        let ctx = rust_run params_default false (as_ctx new_task.bore) life in
        (as_ctx p'.bore ≡ ctx) × (p'.prio ≡ effective_prio (120 - 100) ctx.score (not (1 == 0))))
task_fork_bore_lem_example =
    task_fork_bore_lem 100 params_default keys copy flags family 1_000_000_000 life (omega arith)
      refl (omega arith) (omega arith) (omega arith) copy-IsCopy family-FamilyUpTo (omega arith)
