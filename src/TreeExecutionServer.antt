-- ===== src/TreeExecutionServer.antt =====
-- behaviortree_ros2/src/tree_execution_server.cpp and
-- behaviortree_ros2/include/behaviortree_ros2/tree_execution_server.hpp: the state of the server,
-- the registration of nodes and trees, and the answers to goal and cancel requests. The children
-- hold `execute` and the thread that runs it.
--
-- What BehaviorTree.CPP, rclcpp and the derived class answer during one call is a record; `events`
-- lists what was done to the tree, to the goal and to the derived class, the latest first.
pub mod Execute
pub mod Threads
pub mod Getters
pub mod Startup
pub mod Reloading
pub mod Life
pub mod ServiceTree
pub mod ActionTree
pub mod Tests
use behavior_tree_ros.Prelude.{
  String, List, [], if◌then◌else◌, true, Option, ◌∷◌, not, none, ℕ, false, Bool,
}
use behavior_tree_ros.Program.{Program, modify, done, ◌>>◌, ◌>>=◌, gets, when, lift, Outcome}
use behavior_tree_ros.Ros.{NodeStatus}
use behavior_tree_ros.BtUtils.Loading.{LoadParams, call, register_plugins, register_behavior_trees}
use behavior_tree_ros.BtUtils.{
  Host, FactoryCall, clear_registered_behavior_trees, register_nodes_into_factory,
}

-- btcpp_ros2_interfaces/action/ExecuteTree.action
pub record Goal : Type 0 where
  pub target_tree : String
  pub payload : String

pub record ActionResult : Type 0 where
  pub node_status : ℕ
  pub return_message : String

-- behaviortree_ros2/src/bt_executor_parameters.yaml
pub record Params : Type 0 where
  pub action_name : String
  pub load : LoadParams
  pub tick_frequency : ℕ
  pub groot2_port : ℕ

pub data Event : Type 0 where
  created_tree : String → Event
  called_on_tree_created : Event
  reset_groot_publisher : Event
  made_groot_publisher : ℕ → Event
  ticked halted : Event
  called_completed : NodeStatus → Bool → Event
  published_feedback : String → Event
  -- the duration that `sleep` is asked for, which a wake-up signal may cut short
  slept : ℕ → Event
  cancelled_timer : Event
  goal_canceled goal_succeeded goal_aborted : ActionResult → Event

-- The members of `Pimpl` that change, and the local `action_result` of `execute`.
pub record Server : Type 0 where
  pub params : Params
  pub tree_name : String
  pub payload : String
  pub factory_initialized : Bool
  pub action_result : ActionResult
  pub factory_calls : List FactoryCall
  pub events : List Event

abbrev pub note : Event → Program Server (Unit {0})
note v = modify λ s. record s { events = v ∷ s.events }

-- A program on the factory, run by the server.
abbrev pub back_to : {A : Type 0} → Server → Outcome A × List FactoryCall → Outcome A × Server
back_to s (o, cs) = (o, record s { factory_calls = cs })

abbrev pub on_factory : {A : Type 0} → Program (List FactoryCall) A → Program Server A
on_factory m s = back_to s (m s.factory_calls)

-- `registerNodesIntoFactory`, and the parameters that `get_params` returns.
pub record Registration : Type 0 where
  pub host : Host
  pub new_params : Params
  pub register_nodes : Outcome (Unit {0})

unfoldable pub execute_registration : Registration → Program Server (Unit {0})
execute_registration e = do
  on_factory (call clear_registered_behavior_trees)
  modify λ s. record s { params = e.new_params }
  on_factory (call register_nodes_into_factory)
  lift e.register_nodes
  on_factory (register_plugins e.host e.new_params.load)
  on_factory (register_behavior_trees e.host e.new_params.load)
  modify λ s. record s { factory_initialized = true }

-- The callback of the timer that the constructor starts.
unfoldable pub on_timer : Registration → Program Server (Unit {0})
on_timer e = do
  initialized ← gets λ s. s.factory_initialized
  when (not initialized) (execute_registration e)
  note cancelled_timer

-- The members after the constructor.
abbrev pub members : Params → Server
members p = record {
  params = p;
  tree_name = "";
  payload = "";
  factory_initialized = false;
  action_result = record { node_status = 0; return_message = "" };
  factory_calls = [];
  events = [];
}

pub data GoalResponse : Type 0 where
  reject accept_and_execute : GoalResponse

pub data CancelResponse : Type 0 where
  reject accept : CancelResponse

-- `onGoalReceived` is the derived class's.
unfoldable pub handle_goal : (String → String → Bool) → Goal → GoalResponse
handle_goal on_goal_received goal =
    if not (on_goal_received goal.target_tree goal.payload)
    then GoalResponse.reject
    else accept_and_execute

-- The argument is `goal_handle->is_active()`.
unfoldable pub handle_cancel : Bool → CancelResponse
handle_cancel is_active = if not is_active then CancelResponse.reject else accept

-- The default bodies of the virtual functions that return something.
abbrev pub default_on_goal_received : String → String → Bool
default_on_goal_received tree_name payload = true

abbrev pub default_on_loop_after_tick : NodeStatus → Outcome (Option NodeStatus)
default_on_loop_after_tick status = done none

abbrev pub default_on_tree_execution_completed : NodeStatus → Bool → Outcome (Option String)
default_on_tree_execution_completed status was_cancelled = done none

abbrev pub default_on_loop_feedback : Outcome (Option String)
default_on_loop_feedback = done none

-- What the constructor creates on the ROS node.
pub data Endpoint : Type 0 where
  action_server : String → Endpoint
  service : String → Endpoint
  wall_timer : ℕ → Endpoint

-- The constructor, with the parameters that the listener gives it.
unfoldable pub construct : Params → Server × List Endpoint
construct params = (
  members params,
  action_server params.action_name ∷ service "get_loaded_trees" ∷ wall_timer 1 ∷ [],
)

-- The callback of the service, where `registered` is `factory.registeredBehaviorTrees()`.
unfoldable pub get_loaded_trees : (List FactoryCall → List String) → Server → List String
get_loaded_trees registered s = registered s.factory_calls
