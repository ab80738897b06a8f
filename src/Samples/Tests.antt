-- ===== src/Samples/Tests.antt =====
-- The samples on concrete inputs.
use mathlib.Core.List.{head?}
use behavior_tree_ros.Samples.SleepServer.{
  Env, Round, execute, returned, goal_succeeded, deadline_of, finished, loop, publish, increment,
  finish,
}
use behavior_tree_ros.Samples.SleepServer.Ending.{
  execute_terminates, feedbacks, cycles, count_from, stop,
}
use behavior_tree_ros.Samples.SleepAction.{Goal, sleep_hooks, print_value}
use behavior_tree_ros.Samples.RoundTrip.{sleep_round_trip}
use behavior_tree_ros.Samples.SetBool.{set_bool_env, tick_robot, use_robot}
use behavior_tree_ros.Samples.SetBool.Robots.{robot_change_loses_request}
use behavior_tree_ros.ActionNode.{
  State as ActionState, Env as ActionEnv, Spin, result_callback, WrappedResult, ResultCode,
}
use behavior_tree_ros.ActionNode.Client.{members as action_members}
use behavior_tree_ros.ActionNode.Tick.{tick as tick_action}
use behavior_tree_ros.ServiceNode.{Env as ServiceEnv, State, members}
use behavior_tree_ros.ServiceNode.Tick.Phases.{requests}
use behavior_tree_ros.ServiceNode.Tests.{env, params}
use behavior_tree_ros.Ros.{running, success, failure, completed, timeout}
use behavior_tree_ros.Ros.Tests.{api, api-IsDocumented}
use behavior_tree_ros.Prelude.{
  none, ◌≡◌, false, true, arith, ◌≢◌, refl, eq_iff, ◌≤◌, ◌<◌, ◌^◌, ℕ, ◌∷◌, [], Bool, some,
}
use behavior_tree_ros.Registry.{find}
use behavior_tree_ros.Program.{done}

print_value-missing : (print_value none).0 ≡ failure
unfolding print_value
print_value-missing = refl

-- A sleep of two milliseconds, with more rounds than it needs.
abbrev short_sleep : Goal
short_sleep = record { msec_timeout = 2 }

abbrev at : ℕ → Round
at time = record { time = time; is_canceling = false }

abbrev short_env : Env
short_env = record { start = 0; rounds = at 400 ∷ at 1000400 ∷ at 2000400 ∷ []; rclcpp_ok = true }

execute_terminates_example :
    let (o, t) = execute api short_env short_sleep [] in
    (o ≡ done returned)
    × (feedbacks t ≡ 1 ∷ 0 ∷ [])
    × (head? t ≡ some (goal_succeeded true))
    × (2 ≤ 2)
unfolding cycles count_from stop
execute_terminates_example =
    execute_terminates api short_env short_sleep [] (ground arith) (ground arith)
      (ground arith, (ground arith, (ground arith, tt))) (ground arith)

-- 3000000000 milliseconds, which the port's type allows.
abbrev long_sleep : Goal
long_sleep = record { msec_timeout = 3000000000 }

-- A clock that counts from long ago.
abbrev late_env : Env
late_env = record { start = 2000000000000000; rounds = at 2000000000000001 ∷ []; rclcpp_ok = true }

abbrev slept_result : WrappedResult Bool
slept_result = record { goal_id = 3; code = ResultCode.succeeded; result = some true }

abbrev quiet : Spin ℕ Bool
quiet = record { ran = []; code = timeout }

abbrev sleep_env : ActionEnv Goal ℕ Bool
sleep_env = record {
  hooks = sleep_hooks (done 2);
  rclcpp_ok = true;
  ros_node = some "/bt";
  action_name_input = some "sleep_service";
  make_instance = done tt;
  server_found = true;
  server_ready = true;
  clock = record { node_time = 100; ros_time = 40 };
  spin_some = result_callback slept_result ∷ [];
  spin_goal = quiet;
  goal_reply = none;
  spin_accept = quiet;
  accept_reply = none;
  get_result_request = done tt;
  cancel_request = done tt;
  spin_cancel = quiet;
  spin_result = quiet;
}

-- SleepAction while the server works on its goal.
abbrev sleeping : ActionState Goal Bool
sleeping = record {
  node = record (action_members params) {
    status = running;
    client_instance = some 0;
    goal_handle = some 3;
    goal_received = true;
    on_feedback_state_change = running;
  };
  registry = record { entries = ("/bt/sleep_service", 0) ∷ []; held = []; next_instance = 1 };
  calls = [];
}

short_cycles : cycles short_env.rounds (deadline_of api 0 short_sleep) < 2 ^ 31
unfolding cycles deadline_of
short_cycles = ground arith

short_stop : stop short_env.rounds (deadline_of api 0 short_sleep) ≡ finished
unfolding stop deadline_of
short_stop = refl

short_end : head? (execute api short_env short_sleep []).1 ≡ some (goal_succeeded true)
unfolding execute deadline_of loop publish increment finish
short_end = refl

sleep_round_trip_example : (tick_action api sleep_env sleeping).0 ≡ done success
unfolding stop deadline_of
sleep_round_trip_example =
    sleep_round_trip api api-IsDocumented short_env short_sleep (done 2) 0 3 (goal_succeeded true)
      slept_result sleep_env [] sleeping short_cycles refl (λ h. cc) short_end refl refl refl refl
      refl refl refl refl refl

abbrev reply_env : ServiceEnv Bool Bool
reply_env = record env { spin_response = done completed; response_reply = some true }

-- A robot node that has sent its request to the first robot.
abbrev robot_waiting : State Bool Bool
robot_waiting = record {
  node = record (members params) {
    status = running;
    srv_instance = some 0;
    service_name = "robotA/set_bool";
    future_response = true;
    on_feedback_state_change = running;
  };
  registry = record { entries = ("/bt/robotA/set_bool", 0) ∷ []; held = []; next_instance = 1 };
  calls = [];
}

robot_change_loses_request_example :
    let (o, t) =
      use_robot (set_bool_env (some true) env) "set_bool" (some "robotB") robot_waiting in
    (o ≡ done tt)
    × (t.srv_instance ≢ some 0)
    × (t.status ≡ running)
    × (t.future_response ≡ true)
    × (requests (tick_robot api env "set_bool" (some "robotB") (some true) robot_waiting).1.calls
        ≡ [])
unfolding find
robot_change_loses_request_example =
    robot_change_loses_request api api-IsDocumented env "set_bool" "robotB" "/bt" (some true) 0
      robot_waiting (record { on = refl; has_client = refl; in_flight = λ h. refl }) refl refl
      (ground (arith, eq_iff "robotB" "")) (ground (arith, eq_iff "robotB/set_bool" ""))
      (ground (arith, eq_iff "robotB/set_bool" "__default__placeholder__")) refl refl (ground arith)
      (λ h. cc)
