-- ===== src/RosNodeParams.antt =====
-- behaviortree_ros2/include/behaviortree_ros2/ros_node_params.hpp. The weak pointer to the node is not
-- kept here: whether the node is alive changes over time, and each call's `Env` says it.
use behavior_tree_ros.Prelude.{ℕ, String}

-- The timeouts are in milliseconds.
pub record RosNodeParams : Type 0 where
  pub default_port_value : String
  pub server_timeout : ℕ
  pub wait_for_server_timeout : ℕ

-- `RosNodeParams(node, port_name)`, with the initial values of the other members.
unfoldable pub with_port : String → RosNodeParams
with_port port_name = record {
  default_port_value = port_name;
  server_timeout = 1000;
  wait_for_server_timeout = 500;
}

-- `RosNodeParams(node)`
unfoldable pub without_port : RosNodeParams
without_port = record {
  default_port_value = "";
  server_timeout = 1000;
  wait_for_server_timeout = 500;
}

-- The message of the wrappers' exception where the node is gone.
abbrev pub went_out_of_scope : String
went_out_of_scope =
    "The ROS node went out of scope. RosNodeParams doesn't take the ownership of the node."
