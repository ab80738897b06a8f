-- ===== src/ActionNode/Tests.antt =====
-- Runs of RosActionNode on concrete inputs.
use behavior_tree_ros.Prelude.{ℕ, some, false, ◌∷◌, none, refl, [], true, ◌≡◌}
use behavior_tree_ros.RosNodeParams.{RosNodeParams}
use behavior_tree_ros.Ros.{
  NodeStatus, timeout, completed, running, success, idle, node_logger, named_logger,
}
use behavior_tree_ros.Ros.Tests.{api, api-IsDocumented}
use behavior_tree_ros.Program.{done, throws, runtime_error}
use behavior_tree_ros.ActionNode.{
  Hooks, result_callback, aborted, emit_wake_up_signal, feedback_callback, async_cancel_goal,
  default_on_failure, async_send_goal, async_get_result, default_on_failure_code, Spin, Env, State,
  WrappedResult, now, logger,
}
use behavior_tree_ros.Registry.{Registry}
use behavior_tree_ros.ActionNode.Tick.{
  tick, refresh_client, tick_connected, with_client, dispatch, start, send_goal,
}
use behavior_tree_ros.ActionNode.Client.{members}
use behavior_tree_ros.ActionNode.Tick.Live.{IsLive}
use behavior_tree_ros.ActionNode.Tick.Phases.{Started, tick_first, tick_feedback_stops}
use behavior_tree_ros.ActionNode.Cancel.Handles.{sent, halt_awaits_reply, cancelled}
use behavior_tree_ros.ActionNode.Tick.Status.{Answer, tick-Answer}
use behavior_tree_ros.ActionNode.Cancel.{
  run_callbacks, run_callback, cancel_handle, on_result_message, on_feedback_message, cancel_goal,
  spin_until_future_complete, halt,
}
use behavior_tree_ros.ActionNode.Tick.Restart.{restart_halt_cancels_earlier}

abbrev pub params : RosNodeParams
params = record { default_port_value = "sleep"; server_timeout = 10; wait_for_server_timeout = 5 }

abbrev pub hooks : Hooks ℕ NodeStatus ℕ
hooks = record {
  set_goal = done (some 7);
  on_result_received = λ r. done success;
  on_feedback = λ f. done f;
  on_failure = default_on_failure default_on_failure_code;
  on_failure_code = default_on_failure_code;
  on_halt_hook = done tt;
}

abbrev quiet : Spin NodeStatus ℕ
quiet = record { ran = []; code = timeout }

abbrev pub answered : Spin NodeStatus ℕ
answered = record { ran = []; code = completed }

abbrev pub env : Env ℕ NodeStatus ℕ
env = record {
  hooks = hooks;
  rclcpp_ok = true;
  ros_node = some "/bt";
  action_name_input = some "fibonacci";
  make_instance = done tt;
  server_found = true;
  server_ready = true;
  clock = record { node_time = 100; ros_time = 40 };
  spin_some = [];
  spin_goal = quiet;
  goal_reply = some 3;
  spin_accept = answered;
  accept_reply = some 3;
  get_result_request = done tt;
  cancel_request = done tt;
  spin_cancel = answered;
  spin_result = answered;
}

abbrev empty : Registry
empty = record { entries = []; held = []; next_instance = 0 }

abbrev pub connected : State ℕ ℕ
connected = record {
  node = record (members params) { client_instance = some 0; action_name = "sleep" };
  registry = record { entries = ("/bt/sleep", 0) ∷ []; held = []; next_instance = 1 };
  calls = [];
}

-- The node after the first tick.
abbrev waiting : State ℕ ℕ
waiting = record connected {
  node = record (connected.node) {
    status = running;
    future_goal_handle = true;
    time_goal_sent = 100;
    on_feedback_state_change = running;
  };
  calls = async_send_goal 7 ∷ [];
}

-- The node whose goal has been accepted.
abbrev accepted : State ℕ ℕ
accepted = record waiting {
  node = record (waiting.node) {
    future_goal_handle = false;
    goal_handle = some 3;
    goal_received = true;
  };
}

tick-connected : tick api env connected ≡ (done running, waiting)
unfolding tick refresh_client tick_connected with_client dispatch start send_goal now
tick-connected = refl

waiting-IsLive : IsLive waiting
waiting-IsLive = record { on = refl; has_client = refl; in_flight = λ h. refl; accepted = λ h. cc }

tick_first_example : Started api env (done (some 7)) true connected (tick api env connected)
tick_first_example = tick_first api env 0 connected refl refl refl refl

ran_none : run_callbacks hooks [] waiting ≡ (done tt, waiting)
unfolding run_callbacks
ran_none = refl

waited : spin_until_future_complete hooks true quiet waiting ≡ (done timeout, waiting)
unfolding spin_until_future_complete run_callbacks
waited = refl

tick-Answer_example : Answer api env running waiting
tick-Answer_example = tick-Answer api env api-IsDocumented connected waiting running tick-connected

-- A result that the executor delivers while it spins.
abbrev result : WrappedResult ℕ
result = record { goal_id = 3; code = aborted; result = none }

abbrev delivers : Env ℕ NodeStatus ℕ
delivers = record env { spin_some = result_callback result ∷ [] }

abbrev delivered : State ℕ ℕ
delivered = record accepted {
  node = record (accepted.node) { result = result };
  calls = emit_wake_up_signal ∷ async_send_goal 7 ∷ [];
}

delivers-delivered :
    run_callbacks hooks (result_callback result ∷ []) accepted ≡ (done tt, delivered)
unfolding run_callbacks run_callback on_result_message
delivers-delivered = refl

-- A feedback whose callback asks for SUCCESS.
abbrev stops : Env ℕ NodeStatus ℕ
stops = record env { spin_some = feedback_callback success ∷ [] }

abbrev stopping : State ℕ ℕ
stopping = record accepted {
  node = record (accepted.node) { on_feedback_state_change = success };
  calls = emit_wake_up_signal ∷ async_send_goal 7 ∷ [];
}

abbrev stopped : State ℕ ℕ
stopped = record stopping {
  calls = async_cancel_goal 3 ∷ async_get_result 3 ∷ emit_wake_up_signal ∷ async_send_goal 7 ∷ [];
}

stops-stopping : run_callbacks hooks (feedback_callback success ∷ []) accepted ≡ (done tt, stopping)
unfolding run_callbacks run_callback on_feedback_message
stops-stopping = refl

cancel_goal-stopping : cancel_goal stops stopping ≡ (done tt, stopped)
unfolding cancel_goal cancel_handle spin_until_future_complete run_callbacks
cancel_goal-stopping = refl

tick_feedback_stops_example :
    (tick api stops accepted ≡ (done success, stopped)) × (cancelled stopped.calls ≡ 3 ∷ [])
tick_feedback_stops_example =
    tick_feedback_stops api stops 0 3 accepted stopping stopped refl refl refl refl refl
      stops-stopping (λ h. cc) cancel_goal-stopping

accept-waiting : spin_until_future_complete hooks true answered waiting ≡ (done completed, waiting)
unfolding spin_until_future_complete run_callbacks
accept-waiting = refl

halt_awaits_reply_example :
    (cancelled (halt env waiting).1.calls ≡ 3 ∷ [])
    × ((halt env waiting).1.goal_handle ≡ some 3)
    × ((halt env waiting).1.future_goal_handle ≡ false)
halt_awaits_reply_example =
    halt_awaits_reply env 3 0 waiting waiting refl refl refl refl accept-waiting refl refl

abbrev slow : Env ℕ NodeStatus ℕ
slow = record env { spin_accept = quiet }

-- A node that is idle again after its first goal.
abbrev again : State ℕ ℕ
again = record accepted { node = record (accepted.node) { status = idle }; calls = [] }

restart_halt_cancels_earlier_example :
    let t = (tick api env again).1 in
    let u = (halt env t).1 in
    (sent u.calls ≡ 7 ∷ [])
    × (cancelled u.calls ≡ 3 ∷ [])
    × (u.future_goal_handle ≡ true)
    × (u.goal_handle ≡ some 3)
restart_halt_cancels_earlier_example =
    restart_halt_cancels_earlier api env env 3 0 7 again refl refl refl refl refl refl refl refl

-- The goal cannot be made, as with an input port that has no value.
abbrev pub no_goal : Env ℕ NodeStatus ℕ
no_goal = record env { hooks = record hooks { set_goal = throws (runtime_error "no value") } }

-- The wrapper's own logger is used once the ROS node is gone.
logger-env :
    (logger env ≡ node_logger "/bt")
    × (logger (record env { ros_node = none }) ≡ named_logger "RosActionNode")
unfolding logger
logger-env = (refl, refl)
