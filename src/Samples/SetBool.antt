-- ===== src/Samples/SetBool.antt =====
-- set_bool_node.hpp, set_bool_node.cpp and the callbacks of bool_server.cpp. A request is its flag
-- `data`, a response its flag `success`.
pub mod Robots
use behavior_tree_ros.ServiceNode.{Env, ServiceNodeErrorCode, State, set_service_name, construct}
use behavior_tree_ros.Prelude.{
  Option, String, ◌∷◌, some, [], get_or, none, false, if◌then◌else◌, not, str_eq, ◌<>◌, Bool,
}
use behavior_tree_ros.Ports.{service_ports, bare_port, PortsList}
use behavior_tree_ros.RosNodeParams.{without_port}
use behavior_tree_ros.Ros.{Api, NodeStatus, failure, success}
use behavior_tree_ros.Program.{Outcome, done, faults, pure, ◌>>◌, null_pointer, when, Program}
use behavior_tree_ros.ServiceNode.Tick.{tick}

-- `setRequest`; the request's flag is false where the port has no value.
abbrev pub set_request : Option Bool → Outcome (Option Bool)
set_request value = done (some (get_or value false))

-- `onResponseReceived` reads the response through its pointer.
abbrev pub on_response_received : Option Bool → Outcome NodeStatus
on_response_received none = faults null_pointer
on_response_received (some is_success) = done (if is_success then success else failure)

abbrev pub on_failure : ServiceNodeErrorCode → Outcome NodeStatus
on_failure error = done failure

-- The class, as the virtual functions that a RosServiceNode calls.
abbrev pub set_bool_env : Option Bool → Env Bool Bool → Env Bool Bool
set_bool_env value e = record e {
  set_request = set_request value;
  on_response_received = on_response_received;
  on_failure = on_failure;
}

unfoldable pub set_bool_ports : PortsList
unfolding service_ports
set_bool_ports = service_ports (("value", bare_port "bool") ∷ [])

-- `SetRobotBoolService` gives its base class no name, and keeps the port's name as a suffix.
unfoldable pub construct_robot : Api → Env Bool Bool → Program (State Bool Bool) (Unit {0})
unfolding without_port
construct_robot api e = construct api e none without_port

unfoldable pub robot_ports : PortsList
robot_ports = ("robot", bare_port "std::string") ∷ ("value", bare_port "bool") ∷ []

unfoldable pub use_robot :
    Env Bool Bool → String → Option String → Program (State Bool Bool) (Unit {0})
use_robot e service_suffix none = pure tt
use_robot e service_suffix (some robot) =
    when (not (str_eq robot "")) (set_service_name e (robot <> "/" <> service_suffix))

-- `SetRobotBoolService::tick`, with the ports `robot` and `value`.
unfoldable pub tick_robot :
    Api
    → Env Bool Bool
    → String
    → Option String
    → Option Bool
    → Program (State Bool Bool) NodeStatus
unfolding use_robot
tick_robot api e service_suffix robot value = do
  use_robot (set_bool_env value e) service_suffix robot
  tick api (set_bool_env value e)

-- `CallbackA` and `CallbackB` of the server.
abbrev pub callback_a : Bool → Bool
callback_a request = request

abbrev pub callback_b : Bool → Bool
callback_b request = request
