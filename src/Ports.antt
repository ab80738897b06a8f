-- ===== src/Ports.antt =====
-- The ports of the wrappers (`providedBasicPorts` in
-- behaviortree_ros2/include/behaviortree_ros2/bt_action_node.hpp, bt_service_node.hpp,
-- bt_topic_pub_node.hpp and bt_topic_sub_node.hpp). A `PortsList` is an unordered map, here a list
-- with at most one entry for each name.
mod Tests
pub mod Basic
use behavior_tree_ros.Prelude.{
  String, Option, Bool, if◌then◌else◌, some, none, str_eq, is_some, List, ◌∷◌, [],
}

-- What `InputPort<T>(name, default_value, description)` tells; the default may be missing.
pub record Port : Type 0 where
  pub type_name : String
  pub default_value : Option String
  pub description : String

abbrev pub PortsList : Type 0
PortsList = List (String × Port)

unfoldable pub find_port : String → PortsList → Option Port
find_port key [] = none
find_port key ((k, p) ∷ rest) = if str_eq k key then some p else find_port key rest

abbrev pub has : String → PortsList → Bool
has key ports = is_some (find_port key ports)

-- `insert` of one entry: a name that is there already keeps its entry.
unfoldable pub insert : String × Port → PortsList → PortsList
unfolding find_port
insert (k, p) ports = if has k ports then ports else (k, p) ∷ ports

-- `basic.insert(addition.begin(), addition.end())`
unfoldable pub insert_range : PortsList → PortsList → PortsList
insert_range [] ports = ports
insert_range (entry ∷ rest) ports = insert_range rest (insert entry ports)

abbrev pub text_port : String → String → Port
text_port default_value description = record {
  type_name = "std::string";
  default_value = some default_value;
  description = description;
}

-- `InputPort<T>(name)`
abbrev pub bare_port : String → Port
bare_port type_name = record { type_name = type_name; default_value = none; description = "" }

-- The placeholder of the two topic wrappers.
abbrev pub placeholder : String
placeholder = "__default__placeholder__"

-- `providedBasicPorts` of each wrapper.
unfoldable pub action_ports : PortsList → PortsList
action_ports addition =
    insert_range addition (("action_name", text_port "" "Action server name") ∷ [])

unfoldable pub service_ports : PortsList → PortsList
service_ports addition = insert_range addition (("service_name", text_port "" "Service name") ∷ [])

unfoldable pub publisher_ports : PortsList → PortsList
publisher_ports addition =
    insert_range addition (("topic_name", text_port placeholder "Topic name") ∷ [])

unfoldable pub subscriber_ports : PortsList → PortsList
subscriber_ports addition =
    insert_range addition (("topic_name", text_port placeholder "Topic name") ∷ [])

-- `providedPorts` of each wrapper.
unfoldable pub provided_action_ports : PortsList
unfolding action_ports
provided_action_ports = action_ports []

unfoldable pub provided_service_ports : PortsList
unfolding service_ports
provided_service_ports = service_ports []

unfoldable pub provided_publisher_ports : PortsList
unfolding publisher_ports
provided_publisher_ports = publisher_ports []

unfoldable pub provided_subscriber_ports : PortsList
unfolding subscriber_ports
provided_subscriber_ports = subscriber_ports []
