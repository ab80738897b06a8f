-- ===== src/ServiceNode/Tests.antt =====
-- Runs of RosServiceNode on concrete inputs.
use behavior_tree_ros.Prelude.{Bool, true, refl, some, ◌∷◌, [], none, ◌≡◌}
use behavior_tree_ros.RosNodeParams.{RosNodeParams}
use behavior_tree_ros.Ros.{running, idle, success, timeout}
use behavior_tree_ros.Ros.Tests.{api}
use behavior_tree_ros.Program.{done}
use behavior_tree_ros.ServiceNode.{Env, members, async_send_request, default_on_failure, State, now}
use behavior_tree_ros.ServiceNode.Tick.{
  tick, refresh_client, with_client, dispatch, start, send_request, halt,
}
use behavior_tree_ros.ServiceNode.Tick.Phases.{IsWaiting}

abbrev pub params : RosNodeParams
params = record {
  default_port_value = "set_bool";
  server_timeout = 10;
  wait_for_server_timeout = 5;
}

abbrev pub env : Env Bool Bool
env = record {
  set_request = done (some true);
  on_response_received = λ r. done success;
  on_failure = default_on_failure;
  rclcpp_ok = true;
  ros_node = some "/bt";
  service_name_input = none;
  make_instance = done tt;
  service_found = true;
  service_ready = true;
  clock = record { node_time = 100; ros_time = 40 };
  spin_some = done tt;
  spin_response = done timeout;
  response_reply = none;
}

abbrev pub connected : State Bool Bool
connected = record {
  node = record (members params) { srv_instance = some 0; service_name = "set_bool" };
  registry = record { entries = ("/bt/set_bool", 0) ∷ []; held = []; next_instance = 1 };
  calls = [];
}

-- The node after the first tick.
abbrev waiting : State Bool Bool
waiting = record connected {
  node = record (connected.node) {
    status = running;
    future_response = true;
    time_request_sent = 100;
    on_feedback_state_change = running;
  };
  calls = async_send_request true ∷ [];
}

tick-connected : tick api env connected ≡ (done running, waiting)
unfolding tick refresh_client with_client dispatch start send_request now
tick-connected = refl

halt-waiting : (halt waiting).1.status ≡ idle
unfolding halt
halt-waiting = refl

waiting-IsWaiting : IsWaiting waiting
waiting-IsWaiting = record { on = refl; has_client = refl; in_flight = λ h. refl }
