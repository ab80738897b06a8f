-- ===== src/BtUtils.antt =====
-- behaviortree_ros2/src/bt_utils.cpp: the conversion of a status, and the loading of plugins and
-- trees. A text is a list of characters; the code works on bytes, and '/' is one byte that is part of
-- no other character, so both find it in the same place.
pub mod Paths
pub mod Loading
pub mod Tests
use mathlib.Core.Option
use behavior_tree_ros.Prelude.{
  ℕ, ◌≡◌, ◌==◌, Option, suc, List, ◌<◌, none, ◌<>◌, zero, arith, if◌then◌else◌, some, ◌+◌, Bool,
  String,
}
use behavior_tree_ros.Ros.{NodeStatus, running, success, failure, idle, skipped}
use behavior_tree_ros.Program.{Outcome, done, faults, throws, invalid_range}
use behavior_tree_ros.RosNodeParams.{RosNodeParams}
use Prim.Native.Char.{Char, code}

-- btcpp_ros2_interfaces/msg/NodeStatus.msg
abbrev pub msg_idle : ℕ
msg_idle = 0

abbrev pub msg_running : ℕ
msg_running = 1

abbrev pub msg_success : ℕ
msg_success = 2

abbrev pub msg_failure : ℕ
msg_failure = 3

abbrev pub msg_skipped : ℕ
msg_skipped = 4

unfoldable pub convert_node_status : NodeStatus → ℕ
convert_node_status running = msg_running
convert_node_status success = msg_success
convert_node_status failure = msg_failure
convert_node_status idle = msg_idle
convert_node_status skipped = msg_skipped

abbrev pub is_slash : Char → Bool
is_slash c = code c == b'/'

-- `parameter_value.find_first_of("/")`; `none` is `npos`.
unfoldable pub find_first_of : String → Option ℕ
find_first_of String.[] = none
find_first_of (String.◌∷◌ c s) = if is_slash c then some 0 else Option.map suc (find_first_of s)

abbrev pub size : String → ℕ
size String.[] = 0
size (String.◌∷◌ c s) = suc (size s)

-- `std::string(begin, begin + pos)` and `std::string(begin + pos, end)`
unfoldable pub take : ℕ → String → String
take zero s = ""
take (suc n) String.[] = ""
take (suc n) (String.◌∷◌ c s) = String.◌∷◌ c (take n s)

unfoldable pub drop : ℕ → String → String
drop zero s = s
drop (suc n) String.[] = ""
drop (suc n) (String.◌∷◌ c s) = drop n s

-- The `try` block, where `share` is `ament_index_cpp::get_package_share_directory`.
unfoldable pub search_directory : Outcome String → String → Outcome String
search_directory (done directory) subfolder = done (directory <> "/" <> subfolder)
search_directory (throws e) subfolder = done ""
search_directory (faults u) subfolder = faults u

-- With `npos` the code makes a text from `begin()` to before `begin()`.
unfoldable pub get_directory_path : (String → Outcome String) → String → Outcome String
get_directory_path share value = elim (find_first_of value) [
  | none ↦ faults invalid_range
  | some pos ↦
      if pos == size value
      then done ""
      else search_directory (share (take pos value)) (drop (pos + 1) value)
]

-- An entry of a directory, with its path and `path().extension()`.
pub record DirectoryEntry : Type 0 where
  pub path : String
  pub extension : String

-- What the loading asks of the factory and of the plugins.
pub data FactoryCall : Type 0 where
  clear_registered_behavior_trees register_nodes_into_factory : FactoryCall
  register_behavior_tree_from_file : String → FactoryCall
  plugin_symbol : String → FactoryCall
  ros_plugin_symbol : String → RosNodeParams → FactoryCall

-- The file system, the package index, the shared libraries and the factory.
pub record Host : Type 0 where
  -- `ament_index_cpp::get_package_share_directory`
  pub share : String → Outcome String
  -- `std::filesystem::directory_iterator`, which throws where there is no such directory
  pub list_directory : String → Outcome (List DirectoryEntry)
  -- `factory.registerBehaviorTreeFromFile`
  pub register_file : String → Outcome (Unit {0})
  -- the constructor of `BT::SharedLibrary`, `hasSymbol(PLUGIN_SYMBOL)`, `hasSymbol(ROS_PLUGIN_SYMBOL)`
  pub load_library : String → Outcome (Unit {0})
  pub has_plugin_symbol : String → Bool
  pub has_ros_plugin_symbol : String → Bool
  -- the registration function of the plugin
  pub run_plugin : String → Outcome (Unit {0})
