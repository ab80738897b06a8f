-- ===== src/ActionNode.antt =====
-- behaviortree_ros2/include/behaviortree_ros2/bt_action_node.hpp: the error codes, the state of a
-- RosActionNode, and what it calls. The children hold the member functions: `Client` the
-- constructor and `createClient`, `Cancel` the callbacks, `cancelGoal` and `halt`, `Tick` the tick.
--
-- A goal handle is its goal id. What rclcpp answers during one call of a member function is a record
-- `Env`: it is an argument, so a theorem holds for every behaviour of the server, of the executor
-- and of the derived class. `calls` lists what the node asked of rclcpp and of the derived class,
-- the latest first.
pub mod Client
pub mod Cancel
pub mod Tick
pub mod Runs
pub mod World
pub mod Tests
use behavior_tree_ros.Prelude.{ℕ, String, Bool, false, Option, none, List, ◌∷◌, some}
use behavior_tree_ros.Program.{Outcome, done}
use behavior_tree_ros.Registry.{Registry}
use behavior_tree_ros.Ros.{
  FutureReturnCode, NodeStatus, running, failure, Clock, Logger, node_logger, named_logger,
}

pub data ActionNodeErrorCode : Type 0 where
  server_unreachable send_goal_timeout goal_rejected_by_server : ActionNodeErrorCode
  action_aborted action_cancelled invalid_goal : ActionNodeErrorCode

unfoldable pub to_str : ActionNodeErrorCode → String
to_str server_unreachable = "SERVER_UNREACHABLE"
to_str send_goal_timeout = "SEND_GOAL_TIMEOUT"
to_str goal_rejected_by_server = "GOAL_REJECTED_BY_SERVER"
to_str action_aborted = "ACTION_ABORTED"
to_str action_cancelled = "ACTION_CANCELLED"
to_str invalid_goal = "INVALID_GOAL"

-- `rclcpp_action::ResultCode`
pub data ResultCode : Type 0 where
  unknown succeeded canceled aborted : ResultCode

pub record WrappedResult (R : Type 0) : Type 0 where
  pub goal_id : ℕ
  pub code : ResultCode
  pub result : Option R

-- `result_ = {}`
abbrev pub no_result : {R : Type 0} → WrappedResult R
no_result = record { goal_id = 0; code = unknown; result = none }

-- The members of the class, and `status` of its base class.
pub record RosActionNode (R : Type 0) : Type 0 where
  pub status : NodeStatus
  pub client_instance : Option ℕ
  pub action_name : String
  pub action_name_should_be_checked : Bool
  pub server_timeout : ℕ
  pub wait_for_server_timeout : ℕ
  pub action_client_key : String
  -- `future_goal_handle_.valid()`
  pub future_goal_handle : Bool
  pub goal_handle : Option ℕ
  pub time_goal_sent : ℕ
  pub on_feedback_state_change : NodeStatus
  pub goal_received : Bool
  pub result : WrappedResult R

-- What the node asks of rclcpp, of its base class and of the derived class.
pub data Call (G : Type 0) : Type 0 where
  wait_for_action_server : ℕ → Call G
  async_send_goal : G → Call G
  async_get_result : ℕ → Call G
  async_cancel_goal : ℕ → Call G
  emit_wake_up_signal : Call G
  on_halt : Call G

pub record State (G R : Type 0) : Type 0 where
  pub node : RosActionNode R
  pub open node use *
  pub registry : Registry
  pub calls : List (Call G)

-- A callback that the executor runs while it spins.
pub data Callback (F R : Type 0) : Type 0 where
  feedback_callback : F → Callback F R
  result_callback : WrappedResult R → Callback F R
  goal_response_callback : Option ℕ → Callback F R

-- `spin_until_future_complete`: the callbacks that it ran, and how it ended.
pub record Spin (F R : Type 0) : Type 0 where
  pub ran : List (Callback F R)
  pub code : FutureReturnCode

-- The virtual member functions of the derived class.
pub record Hooks (G F R : Type 0) : Type 0 where
  -- `none` where `setGoal` returns false
  pub set_goal : Outcome (Option G)
  pub on_result_received : WrappedResult R → Outcome NodeStatus
  pub on_feedback : F → Outcome NodeStatus
  -- `onFailure(error, result)`
  pub on_failure : ActionNodeErrorCode → Option (WrappedResult R) → Outcome NodeStatus
  -- `onFailure(error)`
  pub on_failure_code : ActionNodeErrorCode → Outcome NodeStatus
  pub on_halt_hook : Outcome (Unit {0})

-- The answers to one call of a member function.
pub record Env (G F R : Type 0) : Type 0 where
  pub hooks : Hooks G F R
  pub open hooks use *
  -- `rclcpp::ok()`
  pub rclcpp_ok : Bool
  -- `node_.lock()`, and its `get_fully_qualified_name()`
  pub ros_node : Option String
  -- `getInput("action_name", ...)`
  pub action_name_input : Option String
  -- the constructor of `ActionClientInstance`
  pub make_instance : Outcome (Unit {0})
  -- `wait_for_action_server` and `action_server_is_ready`
  pub server_found : Bool
  pub server_ready : Bool
  pub clock : Clock
  -- `spin_some`, and `spin_until_future_complete` with the handle that the future then holds
  pub spin_some : List (Callback F R)
  pub spin_goal : Spin F R
  pub goal_reply : Option ℕ
  -- the same in `cancelGoal`: on the goal's future, then on those of the two requests
  pub spin_accept : Spin F R
  pub accept_reply : Option ℕ
  pub get_result_request : Outcome (Unit {0})
  pub cancel_request : Outcome (Unit {0})
  pub spin_cancel : Spin F R
  pub spin_result : Spin F R

-- `logger()`: the node's, or one of the wrapper's name where the node is gone.
unfoldable pub logger : {G F R : Type 0} → Env G F R → Logger
logger e = elim e.ros_node [
  | some fully_qualified ↦ node_logger fully_qualified
  | none ↦ named_logger "RosActionNode"
]

-- `now()`: the node's time, or ROS time where the node is gone.
unfoldable pub now : {G F R : Type 0} → Env G F R → ℕ
now e = elim e.ros_node [ some fully_qualified ↦ e.clock.node_time | none ↦ e.clock.ros_time ]

-- The default bodies of the optional virtual functions.
abbrev pub default_on_feedback : {F : Type 0} → F → Outcome NodeStatus
default_on_feedback f = done running

abbrev pub default_on_failure_code : ActionNodeErrorCode → Outcome NodeStatus
default_on_failure_code error = done failure

abbrev pub default_on_failure :
    {R : Type 0}
    → (ActionNodeErrorCode → Outcome NodeStatus)
    → ActionNodeErrorCode
    → Option (WrappedResult R)
    → Outcome NodeStatus
default_on_failure on_failure_code error result = on_failure_code error
