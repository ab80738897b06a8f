-- ===== src/Plugins.antt =====
-- behaviortree_ros2/include/behaviortree_ros2/plugins.hpp: `RegisterRosNode` and the macro that makes
-- a plugin of a class.
pub mod Loaders
use behavior_tree_ros.Prelude.{String, List, ◌∷◌, if◌then◌else◌}
use behavior_tree_ros.BtUtils.{Host, ros_plugin_symbol}
use behavior_tree_ros.RosNodeParams.{RosNodeParams}
use behavior_tree_ros.Program.{Exception, Program, ◌>>◌, pure, lift, throw}
use behavior_tree_ros.BtUtils.Loading.{Calls, call}

-- `CreateRosNodePlugin`: the function of a plugin that has one class.
unfoldable pub create_ros_node_plugin :
    String → RosNodeParams → List (String × RosNodeParams) → List (String × RosNodeParams)
create_ros_node_plugin registration_name params builders = (registration_name, params) ∷ builders

-- `loader.getSymbol(BT::ROS_PLUGIN_SYMBOL)` throws where the library has no such symbol.
abbrev pub get_symbol : Host → Exception → String → Program Calls (Unit {0})
get_symbol host no_symbol path =
    if host.has_ros_plugin_symbol path then pure tt else throw no_symbol

unfoldable pub register_ros_node :
    Host → Exception → String → RosNodeParams → Program Calls (Unit {0})
register_ros_node host no_symbol filepath params = do
  lift (host.load_library filepath)
  get_symbol host no_symbol filepath
  call (ros_plugin_symbol filepath params)
  lift (host.run_plugin filepath)
