-- ===== src/TreeExecutionServer/Tests.antt =====
-- Runs of the server on concrete inputs.
use mathlib.Core.List.{head?}
use behavior_tree_ros.Prelude.{[], true, false, Option, ◌∷◌, String, refl, none, some, Bool, ◌≡◌}
use behavior_tree_ros.Ros.{NodeStatus, running, success}
use behavior_tree_ros.Program.{throws, other_error, faults, joinable_thread, done}
use behavior_tree_ros.BtUtils.{Host}
use behavior_tree_ros.TreeExecutionServer.{
  Params, execute_registration, default_on_goal_received, goal_succeeded, members,
  accept_and_execute, default_on_loop_after_tick, default_on_tree_execution_completed,
  default_on_loop_feedback, Goal, on_timer, handle_goal, Event,
}
use behavior_tree_ros.TreeExecutionServer.Execute.{
  ExecuteEnv, Round, run_tree, returned, loop, round, after_tick, end_round, finish, unfinished,
  period, execute,
}
use behavior_tree_ros.TreeExecutionServer.Execute.Report.{
  Answers, verdict, result, execute_reports, closing,
}
use behavior_tree_ros.TreeExecutionServer.Threads.{
  Workers, executing, Reach, fresh, next, here, destroy_terminates, accepts, handle_accepted,
  destroy,
}
use behavior_tree_ros.BtUtils.Loading.{register_plugins, register_behavior_trees, for_each}

abbrev host : Host
host = record {
  share = λ name. throws (other_error "package not found");
  list_directory = λ path. throws (other_error "no such directory");
  register_file = λ path. done tt;
  load_library = λ path. done tt;
  has_plugin_symbol = λ path. false;
  has_ros_plugin_symbol = λ path. false;
  run_plugin = λ path. done tt;
}

abbrev pub params : Params
params = record {
  action_name = "bt_execution";
  load = record { plugins = []; ros_plugins_timeout = 1000; behavior_trees = [] };
  tick_frequency = 100;
  groot2_port = 1667;
}

abbrev pub goal : Goal
goal = record { target_tree = "patrol"; payload = "" }

-- A round in which the tree is ticked with this answer.
abbrev pub tick_round : NodeStatus → Round
tick_round status = record {
  rclcpp_ok = true;
  is_canceling = false;
  tick_once = done status;
  on_loop_after_tick = default_on_loop_after_tick;
  on_loop_feedback = default_on_loop_feedback;
  now = 5;
}

abbrev pub env : ExecuteEnv
env = record {
  registration = record { host = host; new_params = params; register_nodes = done tt };
  is_old = false;
  create_tree = done tt;
  on_tree_created = done tt;
  make_groot_publisher = done tt;
  halt_tree = done tt;
  on_tree_execution_completed = default_on_tree_execution_completed;
  to_str = λ s. "SUCCESS";
  start = 0;
  rounds = tick_round running ∷ tick_round success ∷ [];
}

abbrev pub no_text : NodeStatus → Bool → Option String
no_text status was_cancelled = none

env-Answers : Answers env no_text
env-Answers = record { halts = refl; tells = λ v b. refl }

on_timer-registers :
    let (o, t) = on_timer env.registration (members params) in
    (o ≡ done tt) × (t.factory_initialized ≡ true)
unfolding on_timer execute_registration register_plugins register_behavior_trees for_each
on_timer-registers = (refl, refl)

handle_goal-default : handle_goal default_on_goal_received goal ≡ accept_and_execute
unfolding handle_goal
handle_goal-default = refl

abbrev reported : Event
reported = goal_succeeded (result success "Tree finished with status: SUCCESS")

closing-success : closing env no_text (verdict env.rounds) ≡ some reported
unfolding closing verdict
closing-success = refl

execute_reports_example :
    let (o, t) = execute env goal (members params) in
    (o ≡ done returned) × (head? t.events ≡ some reported)
execute_reports_example =
    execute_reports env no_text env-Answers goal (members params) reported refl refl refl refl
      closing-success

abbrev pub going : ExecuteEnv
going = record env { rounds = tick_round running ∷ [] }

execute-going : (execute going goal (members params)).0 ≡ done unfinished
unfolding execute run_tree loop round after_tick end_round finish period
execute-going = refl

abbrev pub one_run : Workers
one_run = record { action_thread = executing 1; started = 1 ∷ []; ended = [] }

one_run-Reach : Reach fresh one_run
unfolding handle_accepted
one_run-Reach = next here (accepts 1 refl)

destroy_terminates_example : destroy one_run ≡ faults joinable_thread
destroy_terminates_example = destroy_terminates one_run one_run-Reach (λ h. cc)
