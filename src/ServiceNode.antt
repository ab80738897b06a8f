-- ===== src/ServiceNode.antt =====
-- behaviortree_ros2/include/behaviortree_ros2/bt_service_node.hpp: the error codes, the state of a
-- RosServiceNode, its constructor, `createClient` and `setServiceName`. `Tick` holds `tick` and
-- `halt`. A response is a value of an unknown type; what rclcpp and the derived class answer during
-- one call is a record `Env`; `calls` lists what the node asked of rclcpp, the latest first.
pub mod Tick
pub mod Runs
pub mod Tests
use behavior_tree_ros.Prelude.{
  String, Option, Bool, none, List, false, str_eq, some, ◌||◌, if◌then◌else◌, is_some, ◌<>◌, true,
  not, ◌&&◌, ◌∷◌, ℕ,
}
use behavior_tree_ros.Ros.{
  NodeStatus, idle, failure, FutureReturnCode, Api, Clock, Logger, node_logger, named_logger,
}
use behavior_tree_ros.Program.{
  Outcome, done, modify, ◌>>◌, when, ignore, pure, ◌>>=◌, throw, gets, runtime_error, lift, Program,
}
use behavior_tree_ros.RosNodeParams.{RosNodeParams, went_out_of_scope}
use behavior_tree_ros.Registry.{acquire, Registry, must_create}

pub data ServiceNodeErrorCode : Type 0 where
  service_unreachable service_timeout invalid_request service_aborted : ServiceNodeErrorCode

unfoldable pub to_str : ServiceNodeErrorCode → String
to_str service_unreachable = "SERVICE_UNREACHABLE"
to_str service_timeout = "SERVICE_TIMEOUT"
to_str invalid_request = "INVALID_REQUEST"
to_str service_aborted = "SERVICE_ABORTED"

-- The members of the class, and `status` of its base class.
pub record RosServiceNode (R : Type 0) : Type 0 where
  pub status : NodeStatus
  pub srv_instance : Option ℕ
  pub service_name : String
  pub service_name_should_be_checked : Bool
  pub service_timeout_ms : ℕ
  pub wait_for_service_timeout : ℕ
  -- `future_response_.valid()`
  pub future_response : Bool
  pub time_request_sent : ℕ
  pub on_feedback_state_change : NodeStatus
  pub response_received : Bool
  pub response : Option R

pub data Call (Q : Type 0) : Type 0 where
  wait_for_service : ℕ → Call Q
  async_send_request : Q → Call Q

pub record State (Q R : Type 0) : Type 0 where
  pub node : RosServiceNode R
  pub open node use *
  pub registry : Registry
  pub calls : List (Call Q)

-- The answers to one call of a member function.
pub record Env (Q R : Type 0) : Type 0 where
  -- the virtual functions; `none` where `setRequest` returns false
  pub set_request : Outcome (Option Q)
  pub on_response_received : Option R → Outcome NodeStatus
  pub on_failure : ServiceNodeErrorCode → Outcome NodeStatus
  -- `rclcpp::ok()`
  pub rclcpp_ok : Bool
  -- `node_.lock()`, and its `get_fully_qualified_name()`
  pub ros_node : Option String
  -- `getInput("service_name", ...)`
  pub service_name_input : Option String
  -- the constructor of `ServiceClientInstance`
  pub make_instance : Outcome (Unit {0})
  -- `wait_for_service` and `service_is_ready`
  pub service_found : Bool
  pub service_ready : Bool
  pub clock : Clock
  -- how `spin_some` and `spin_until_future_complete` end, and the response that the future holds
  pub spin_some : Outcome (Unit {0})
  pub spin_response : Outcome FutureReturnCode
  pub response_reply : Option R

-- `logger()`: the node's, or one of the wrapper's name where the node is gone.
unfoldable pub logger : {Q R : Type 0} → Env Q R → Logger
logger e = elim e.ros_node [
  | some fully_qualified ↦ node_logger fully_qualified
  | none ↦ named_logger "RosServiceNode"
]

-- `now()`: the node's time, or ROS time where the node is gone.
unfoldable pub now : {Q R : Type 0} → Env Q R → ℕ
now e = elim e.ros_node [ some fully_qualified ↦ e.clock.node_time | none ↦ e.clock.ros_time ]

abbrev pub default_on_failure : ServiceNodeErrorCode → Outcome NodeStatus
default_on_failure error = done failure

-- The members before the body of the constructor runs.
abbrev pub members : {R : Type 0} → RosNodeParams → RosServiceNode R
members p = record {
  status = idle;
  srv_instance = none;
  service_name = "";
  service_name_should_be_checked = false;
  service_timeout_ms = p.server_timeout;
  wait_for_service_timeout = p.wait_for_server_timeout;
  future_response = false;
  time_request_sent = 0;
  on_feedback_state_change = idle;
  response_received = false;
  response = none;
}

module _ {Q R : Type 0} where
  abbrev pub update : (RosServiceNode R → RosServiceNode R) → Program (State Q R) (Unit {0})
  update f = modify λ s. record s { node = f (s.node) }

module _ {Q R : Type 0} (e : Env Q R) where
  -- `node_.lock()`, or the exception where the node is gone.
  abbrev lock_node : Program (State Q R) String
  lock_node = elim e.ros_node [
    | none ↦ throw (runtime_error went_out_of_scope)
    | some fully_qualified ↦ pure fully_qualified
  ]

  abbrev use_instance : String → State Q R → State Q R
  use_instance key s =
      let (i, r) = acquire key s.srv_instance s.registry in
      record s { node = record (s.node) { srv_instance = i }; registry = r }

  unfoldable pub create_client : String → Program (State Q R) Bool
  create_client name = do
    when (str_eq name "" || str_eq name "__default__placeholder__")
        (throw (runtime_error "service_name is empty or invalid"))
    fully_qualified ← lock_node
    let client_key = fully_qualified <> "/" <> name
    must ← gets λ s. must_create client_key s.srv_instance s.registry
    when must (lift e.make_instance)
    modify (use_instance client_key)
    modify λ s. record s {
      node = record (s.node) { service_name = name };
      calls = wait_for_service s.wait_for_service_timeout ∷ s.calls;
    }
    pure e.service_found

  unfoldable pub set_service_name : String → Program (State Q R) (Unit {0})
  set_service_name name = do
    update λ n. record n { service_name = name }
    ignore (create_client name)

module _ {Q R : Type 0} (api : Api) (e : Env Q R) where
  -- `config().input_ports.find("service_name")` and what is done with it.
  unfoldable pub use_port : Option String → Program (State Q R) (Unit {0})
  use_port none = pure tt
  use_port (some name) =
      if api.is_blackboard_pointer name
      then (update λ n. record n { service_name_should_be_checked = true })
      else when (not (str_eq name "")) (ignore (create_client e name))

  -- The body of the constructor, with the port's text in the XML and the parameters.
  unfoldable pub construct : Option String → RosNodeParams → Program (State Q R) (Unit {0})
  construct port p = do
    modify λ s. record s { node = members p }
    use_port port
    has_client ← gets λ s. is_some s.srv_instance
    when (not has_client && not (str_eq p.default_port_value ""))
        (ignore (create_client e p.default_port_value))
