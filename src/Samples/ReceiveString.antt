-- ===== src/Samples/ReceiveString.antt =====
-- `ReceiveString` of subscriber_test.cpp: it answers SUCCESS with and without a message.
use behavior_tree_ros.TopicSubNode.{Env, default_latch_last_message}
use behavior_tree_ros.Prelude.{Option, String, []}
use behavior_tree_ros.Ports.{PortsList}
use behavior_tree_ros.Program.{Outcome, done}
use behavior_tree_ros.Ros.{NodeStatus, success}

abbrev pub on_tick : Option String → Outcome NodeStatus
on_tick last_msg = done success

abbrev pub provided_ports : PortsList
provided_ports = []

abbrev pub receive_env : Env String → Env String
receive_env e = record e { on_tick = on_tick; latch_last_message = default_latch_last_message }
