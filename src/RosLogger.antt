-- ===== src/RosLogger.antt =====
-- behaviortree_ros2/src/bt_ros_logger.cpp and
-- behaviortree_ros2/include/behaviortree_ros2/bt_ros_logger.hpp. A line of the log is what `callback`
-- gives to the logging macro; the widths are counted in the characters of a text. A text is ASCII
-- here, so that `size()` is its length.
mod Tests
pub mod Columns
use behavior_tree_ros.Prelude.{String, if◌then◌else◌, Option, ltb, List, some, ◌∷◌, none, ℕ}
use behavior_tree_ros.Ros.{NodeStatus}
use behavior_tree_ros.BtUtils.{drop, size}

-- `"                         "`
abbrev pub whitespaces : String
whitespaces = "                         "

abbrev pub ws_count : ℕ
ws_count = 25

unfoldable pub min : ℕ → ℕ → ℕ
min a b = if ltb b a then b else a

-- `&whitespaces[...]`: the rest of the array from there.
unfoldable pub padding : String → String
unfolding min
padding name = drop (min ws_count (size name)) whitespaces

pub record Line : Type 0 where
  pub since_epoch : ℕ
  pub name : String
  pub pad : String
  pub prev_status : String
  pub status : String

-- `callback`: one line while the ROS node is alive, and nothing else.
unfoldable pub callback :
    (NodeStatus → String)
    → Option String
    → ℕ
    → String
    → NodeStatus
    → NodeStatus
    → List Line
    → List Line
callback to_str none timestamp name prev_status status lines = lines
callback to_str (some ros_node) timestamp name prev_status status lines =
    record {
      since_epoch = timestamp;
      name = name;
      pad = padding name;
      prev_status = to_str prev_status;
      status = to_str status;
    }
    ∷ lines
