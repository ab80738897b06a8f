-- ===== src/Ros.antt =====
-- What the program takes from BehaviorTree.CPP and rclcpp: the enumerations that it names and the
-- functions that it calls, as parameters.
pub mod Tests
use behavior_tree_ros.Prelude.{ℕ, String, Bool, true, ◌≡◌, ◌↔◌, ◌⊎◌}

-- The five cases that `ConvertNodeStatus` (behaviortree_ros2/src/bt_utils.cpp) tells apart.
pub data NodeStatus : Type 0 where
  running success failure idle skipped : NodeStatus

abbrev pub is_running : NodeStatus → Bool
is_running running = true
is_running _ = Bool.false

abbrev pub is_idle : NodeStatus → Bool
is_idle idle = true
is_idle _ = Bool.false

abbrev pub is_success : NodeStatus → Bool
is_success success = true
is_success _ = Bool.false

-- `rclcpp::FutureReturnCode`
pub data FutureReturnCode : Type 0 where
  completed interrupted timeout : FutureReturnCode

abbrev pub is_complete : FutureReturnCode → Bool
is_complete completed = true
is_complete _ = Bool.false

-- The two clocks that a wrapper may read, in nanoseconds.
pub record Clock : Type 0 where
  -- `node->now()`
  pub node_time : ℕ
  -- `rclcpp::Clock(RCL_ROS_TIME).now()`
  pub ros_time : ℕ

-- `node->get_logger()`, of the node with this name, and `rclcpp::get_logger(name)`
pub data Logger : Type 0 where
  node_logger named_logger : String → Logger

-- Functions of BehaviorTree.CPP and rclcpp.
pub record Api : Type 0 where
  -- `BT::isStatusCompleted`
  pub is_status_completed : NodeStatus → Bool
  -- `BT::isBlackboardPointer`
  pub is_blackboard_pointer : String → Bool
  -- `BT::toStr(NodeStatus)`
  pub to_str : NodeStatus → String
  -- `rclcpp::Duration::from_seconds(double(ms) / 1000)`, in nanoseconds
  pub from_seconds : ℕ → ℕ

-- The documentation of `isStatusCompleted`: SUCCESS and FAILURE are the completed statuses.
pub record IsDocumented (api : Api) : Type 0 where
  pub completed :
      (s : NodeStatus) → (api.is_status_completed s ≡ true) ↔ ((s ≡ success) ⊎ (s ≡ failure))
