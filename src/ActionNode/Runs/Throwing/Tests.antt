-- ===== src/ActionNode/Runs/Throwing/Tests.antt =====
-- A node whose first tick threw, and which is halted then.
use behavior_tree_ros.ActionNode.{State, Env, now}
use behavior_tree_ros.ActionNode.Tests.{env, no_goal, params, connected}
use behavior_tree_ros.ActionNode.Runs.Tests.{
  built, construct-built, built-status, env-IsBenign, env-IsOrderly,
}
use behavior_tree_ros.ActionNode.Runs.Throwing.{
  Reach, here, next, tick_throws, ticks, halt_always_safe,
}
use behavior_tree_ros.ActionNode.Client.{construct, use_port, create_client}
use behavior_tree_ros.ActionNode.Cancel.{halt, run_callbacks}
use behavior_tree_ros.ActionNode.Tick.{
  tick, refresh_client, tick_connected, with_client, dispatch, start, send_goal,
}
use behavior_tree_ros.Registry.{acquire, must_create, insert_or_assign, create, find}
use behavior_tree_ros.Ros.{NodeStatus, running}
use behavior_tree_ros.Ros.Tests.{api}
use behavior_tree_ros.Prelude.{ℕ, refl, none, inr, ◌≡◌, true}
use behavior_tree_ros.Program.{Outcome, throws, runtime_error, NeverFaults, is_fault, done}
use behavior_tree_ros.ActionNode.Runs.{can_tick, set_status}
use behavior_tree_ros.ActionNode.Runs.Throwing.Rejected.{
  IsHarmless, is_rejected, halt_faults_exactly,
}
use behavior_tree_ros.ActionNode.Runs.Throwing.Unsent.{is_unsent, action_faults_exactly}

abbrev thrown : Outcome NodeStatus × State ℕ ℕ
thrown = tick api no_goal built.1

tick-thrown : tick api no_goal built.1 ≡ (throws (runtime_error "no value"), thrown.1)
unfolding construct use_port create_client acquire must_create find insert_or_assign create tick
    refresh_client tick_connected with_client dispatch start send_goal now
tick-thrown = refl

thrown-Reach : Reach NodeStatus api built.1 thrown.1
thrown-Reach =
    next here
      (tick_throws no_goal (runtime_error "no value") thrown.1 (rw built-status refl) tick-thrown)

halt_always_safe_example : NeverFaults (halt env thrown.1).0
halt_always_safe_example =
    halt_always_safe api env env none params connected built.1 thrown.1 construct-built thrown-Reach
      env-IsBenign (inr refl)

thrown_facts :
    (can_tick thrown.1.status ≡ true)
    × (run_callbacks env.hooks env.spin_some thrown.1 ≡ (done tt, thrown.1))
    × (is_unsent thrown.1 ≡ true)
unfolding construct use_port create_client acquire must_create find insert_or_assign create tick
    refresh_client tick_connected with_client dispatch start send_goal now run_callbacks
thrown_facts = (refl, refl, refl)

action_faults_exactly_example : is_fault (tick api env thrown.1).0 ≡ is_unsent thrown.1
action_faults_exactly_example =
    action_faults_exactly api env env-IsBenign env none params connected built.1 thrown.1 thrown.1
      construct-built thrown-Reach thrown_facts.0 (env-IsOrderly thrown.1) refl thrown_facts.1

-- A node that has sent its goal, and is halted while the server rejects it.
abbrev asked : Outcome NodeStatus × State ℕ ℕ
asked = tick api env built.1

asked-sends : asked ≡ (done running, asked.1)
unfolding construct use_port create_client acquire must_create find insert_or_assign create tick
    refresh_client tick_connected with_client dispatch start send_goal now
asked-sends = refl

asked-Reach : Reach NodeStatus api built.1 (set_status running asked.1)
asked-Reach = next here (ticks env running asked.1 (rw built-status refl) asked-sends)

abbrev rejecting : Env ℕ NodeStatus ℕ
rejecting = record env { accept_reply = none }

rejecting-IsHarmless : IsHarmless rejecting
rejecting-IsHarmless id = record {
  goal_set = env-IsBenign.goal_set;
  result_received = env-IsBenign.result_received;
  fed_back = env-IsBenign.fed_back;
  failed = env-IsBenign.failed;
  failed_code = env-IsBenign.failed_code;
  halted = env-IsBenign.halted;
  made = env-IsBenign.made;
  asked = env-IsBenign.asked;
  cancelled = env-IsBenign.cancelled;
  not_rejected = refl;
}

halt_faults_exactly_example :
    is_fault (halt rejecting (set_status running asked.1)).0
    ≡ is_rejected rejecting (set_status running asked.1)
halt_faults_exactly_example =
    halt_faults_exactly rejecting api env none params connected built.1 (set_status running asked.1)
      rejecting-IsHarmless construct-built asked-Reach (inr refl)
