-- ===== src/Plugins/Loaders.antt =====
-- How `RegisterRosNode` differs from `LoadPlugin`, which loads the same plugins for the server.
use behavior_tree_ros.Program.{Outcome, throws, done, Exception, faults}
use behavior_tree_ros.BtUtils.{Host}
use behavior_tree_ros.Plugins.{register_ros_node}
use behavior_tree_ros.BtUtils.Loading.{load_plugin, Calls}
use behavior_tree_ros.Prelude.{String, ◌≡◌, false, true, arith}
use behavior_tree_ros.RosNodeParams.{RosNodeParams}

-- What is left of an outcome once exceptions are swallowed.
abbrev pub swallow : {A : Type 0} → A → Outcome A → Outcome A
swallow a (throws e) = done a
swallow a (done b) = done b
swallow a (faults u) = faults u

module _ (host : Host) where
  -- On a library that has the ROS symbol and not the plain one, both loaders do the same; but
  -- `LoadPlugin` swallows the exceptions that `RegisterRosNode` passes on.
  register_ros_node_agrees :
      (no_symbol : Exception) (path : String) (params : RosNodeParams) (cs : Calls)
      → host.has_plugin_symbol path ≡ false
      → host.has_ros_plugin_symbol path ≡ true
      → let (o, t) = register_ros_node host no_symbol path params cs in
        load_plugin host params path cs ≡ (swallow tt o, t)
  unfolding register_ros_node load_plugin
  register_ros_node_agrees no_symbol path params cs plain ros = ground arith
