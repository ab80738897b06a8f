-- ===== src/ActionNode/Runs/Tests.antt =====
-- A run of RosActionNode from its constructor on.
use behavior_tree_ros.ActionNode.Tests.{hooks, env, params, connected}
use behavior_tree_ros.Program.{Outcome, faults, done, null_pointer, NeverFaults}
use behavior_tree_ros.ActionNode.Client.{construct, use_port, create_client}
use behavior_tree_ros.ActionNode.Runs.{Reach, set_status, here, next, ticks}
use behavior_tree_ros.ActionNode.Runs.Callbacks.{IsBenign, IsOrderly, early_result_faults}
use behavior_tree_ros.ActionNode.{State, result_callback, no_result, now}
use behavior_tree_ros.ActionNode.Cancel.{run_callbacks, halt}
use behavior_tree_ros.Prelude.{ℕ, refl, none, inr, ◌∷◌, [], ◌≡◌}
use behavior_tree_ros.Ros.{NodeStatus, running, idle}
use behavior_tree_ros.ActionNode.Tick.{
  tick, refresh_client, tick_connected, with_client, dispatch, start, send_goal,
}
use behavior_tree_ros.Ros.Tests.{api, api-IsDocumented}
use behavior_tree_ros.Registry.{acquire, must_create, insert_or_assign, create, find}
use behavior_tree_ros.ActionNode.Runs.Faults.{Reach_safe}
use behavior_tree_ros.ActionNode.Cancel.Handles.{sent}

abbrev pub built : Outcome (Unit {0}) × State ℕ ℕ
built = construct api env none params connected

pub construct-built : construct api env none params connected ≡ (done tt, built.1)
unfolding construct use_port create_client acquire must_create find insert_or_assign create
construct-built = refl

abbrev pub ticked : Outcome NodeStatus × State ℕ ℕ
ticked = tick api env built.1

tick-built : tick api env built.1 ≡ (done running, ticked.1)
unfolding construct use_port create_client acquire must_create find insert_or_assign create tick
    refresh_client tick_connected with_client dispatch start send_goal now
tick-built = refl

pub built-status : built.1.status ≡ idle
unfolding construct use_port create_client acquire must_create find insert_or_assign create
built-status = refl

pub one_tick : Reach NodeStatus api built.1 (set_status running ticked.1)
one_tick = next here (ticks env running ticked.1 (λ h. cc) (rw built-status refl) tick-built)

pub env-IsBenign : IsBenign env
env-IsBenign = record {
  goal_set = refl;
  result_received = λ r. refl;
  fed_back = λ f. refl;
  failed = λ c r. refl;
  failed_code = λ c. refl;
  halted = refl;
  made = refl;
  asked = refl;
  cancelled = refl;
  not_rejected = refl;
}

pub env-IsOrderly : (s : State ℕ ℕ) → IsOrderly env s
env-IsOrderly s = record {
  some_in_order = inr refl;
  goal_in_order = inr refl;
  accept_in_order = inr refl;
}

Reach_safe_example :
    NeverFaults (tick api env (set_status running ticked.1)).0
    × NeverFaults (halt env (set_status running ticked.1)).0
Reach_safe_example =
    Reach_safe api api-IsDocumented env env none params connected built.1
      (set_status running ticked.1) construct-built one_tick refl env-IsBenign
      (env-IsOrderly (set_status running ticked.1))

early_result_faults_example :
    let (o, t) = tick api env connected in
    (o ≡ done running)
    × (sent t.calls ≡ 7 ∷ [])
    × (run_callbacks hooks (result_callback no_result ∷ []) t ≡ (faults null_pointer, t))
early_result_faults_example =
    early_result_faults api env hooks 0 7 no_result [] connected refl refl refl refl refl refl refl
