-- ===== src/Samples/Programs.antt =====
-- The main functions of sleep_client.cpp, bool_client.cpp, subscriber_test.cpp, bool_server.cpp,
-- sleep_server.cpp and sample_bt_executor.cpp: what each asks of rclcpp and of the factory, the
-- latest first. A `while` loop on `rclcpp::ok()` is a list of its answers; where they are used up,
-- there is no exit code. The elements `root` and `BehaviorTree`, which stand around each tree, and the
-- log are left out.
pub mod Nodes
pub mod Clients
pub mod Robots
pub mod Asking
pub mod Meeting
mod Tests
use behavior_tree_ros.Prelude.{
  String, Bool, ℕ, zero, suc, true, false, Option, some, none, List, [], ◌∷◌, if◌then◌else◌,
}
use behavior_tree_ros.Program.{Program, Outcome, Exception, modify, lift, pure, ◌>>◌}
use behavior_tree_ros.RosNodeParams.{RosNodeParams, with_port, without_port}
use behavior_tree_ros.BtUtils.{Host}
use behavior_tree_ros.Plugins.{register_ros_node as run_register_ros_node}
use behavior_tree_ros.Samples.SetBool.{callback_a, callback_b}

-- An element of a tree's XML with its attributes, and the elements that stand in it.
mutual
  pub data Element : Type 0 where
    element : String → List (String × String) → Elements → Element

  pub data Elements : Type 0 where
    nothing : Elements
    with_next : Element → Elements → Elements

-- An element without others in it, and one that holds others.
abbrev pub leaf : String → List (String × String) → Element
leaf registration_id attributes = element registration_id attributes nothing

abbrev pub elements : List Element → Elements
elements [] = nothing
elements (x ∷ xs) = with_next x (elements xs)

-- What a program registers in the factory: the class, with the arguments of its constructor.
pub data ServiceType : Type 0 where
  set_bool_service : RosNodeParams → ServiceType
  set_robot_bool_service : String → ServiceType

pub data NodeType : Type 0 where
  print_value_node : NodeType
  sleep_action_node receive_string_node : RosNodeParams → NodeType
  service_node : ServiceType → NodeType

pub data Call : Type 0 where
  init shutdown spin tick_while_running : Call
  make_node : String → Call
  create_service : String → (Bool → Bool) → Call
  create_action_server : String → Call
  register_node_type : String → NodeType → Call
  register_ros_node : String → RosNodeParams → Call
  create_tree_from_text : Element → Call
  make_action_server make_executor add_node remove_node : Call

-- How the calls end; a plugin is loaded by the code itself.
pub record Libraries : Type 0 where
  pub answer : Call → Outcome (Unit {0})
  pub host : Host
  pub no_symbol : Exception

module _ (libs : Libraries) where
  abbrev pub ask : Call → Program (List Call) (Unit {0})
  ask c = do modify (λ cs. c ∷ cs); lift (libs.answer c)

  -- `RegisterRosNode(factory, path, params)`
  unfoldable pub ask_plugin : String → RosNodeParams → Program (List Call) (Unit {0})
  ask_plugin path params = do
    modify (λ cs. register_ros_node path params ∷ cs)
    lift (run_register_ros_node libs.host libs.no_symbol path params []).0

  unfoldable pub tick_times : ℕ → Program (List Call) (Unit {0})
  tick_times zero = pure tt
  tick_times (suc n) = ask tick_while_running >> tick_times n

  -- `while(rclcpp::ok())` and `return 0`.
  unfoldable pub tick_while_ok : List Bool → Program (List Call) (Option ℕ)
  tick_while_ok [] = pure none
  tick_while_ok (true ∷ oks) = ask tick_while_running >> tick_while_ok oks
  tick_while_ok (false ∷ oks) = pure (some 0)

-- `xml_text` of the three clients.
abbrev pub sleep_tree : Element
sleep_tree = element "Sequence" [] (
    elements (
      leaf "PrintValue" (("message", "start") ∷ [])
      ∷ leaf "SleepAction" (("name", "sleepA") ∷ ("msec", "2000") ∷ [])
      ∷ leaf "PrintValue" (("message", "sleep completed") ∷ [])
      ∷ element "Fallback" [] (
          elements (
            element "Timeout" (("msec", "1500") ∷ []) (
              elements (
                leaf "SleepAction"
                  (("name", "sleepB") ∷ ("action_name", "sleep_service") ∷ ("msec", "2000") ∷ [])
                ∷ []))
            ∷ leaf "PrintValue" (("message", "sleep aborted") ∷ [])
            ∷ []))
      ∷ []))

abbrev pub bool_tree : Element
bool_tree = element "Sequence" [] (
    elements (
      leaf "SetBoolA" (("value", "true") ∷ [])
      ∷ leaf "SetBool" (("service_name", "robotB/set_bool") ∷ ("value", "true") ∷ [])
      ∷ leaf "SetRobotBool" (("robot", "robotA") ∷ ("value", "true") ∷ [])
      ∷ leaf "SetRobotBool" (("robot", "robotB") ∷ ("value", "true") ∷ [])
      ∷ []))

abbrev pub string_tree : Element
string_tree = element "Sequence" [] (
    elements (
      leaf "ReceiveString" (("name", "A") ∷ [])
      ∷ leaf "ReceiveString" (("name", "B") ∷ [])
      ∷ leaf "ReceiveString" (("name", "C") ∷ [])
      ∷ []))

module _ (libs : Libraries) where
  -- `main` of each program; `use_sleep_plugin` is the macro of that name.
  unfoldable pub sleep_client : Bool → Program (List Call) ℕ
  unfolding with_port
  sleep_client use_sleep_plugin = do
    ask libs init
    ask libs (make_node "sleep_client")
    ask libs (register_node_type "PrintValue" print_value_node)
    let params = with_port "sleep_service"
    if use_sleep_plugin
        then ask_plugin libs "../lib/libsleep_action_plugin.so" params
        else ask libs (register_node_type "SleepAction" (sleep_action_node params))
    ask libs (create_tree_from_text sleep_tree)
    tick_times libs 5
    pure 0

  unfoldable pub bool_client : Program (List Call) ℕ
  unfolding with_port without_port
  bool_client = do
    ask libs init
    ask libs (make_node "bool_client")
    ask libs (
        register_node_type "SetBoolA"
          (service_node (set_bool_service (with_port "robotA/set_bool"))))
    ask libs (register_node_type "SetBool" (service_node (set_bool_service without_port)))
    ask libs (register_node_type "SetRobotBool" (service_node (set_robot_bool_service "set_bool")))
    ask libs (create_tree_from_text bool_tree)
    ask libs tick_while_running
    pure 0

  unfoldable pub subscriber_test : List Bool → Program (List Call) (Option ℕ)
  unfolding with_port
  subscriber_test oks = do
    ask libs init
    ask libs (make_node "subscriber_test")
    let params = with_port "btcpp_string"
    ask libs (register_node_type "ReceiveString" (receive_string_node params))
    ask libs (create_tree_from_text string_tree)
    tick_while_ok libs oks

  unfoldable pub bool_server : Program (List Call) ℕ
  bool_server = do
    ask libs init
    ask libs (make_node "add_two_ints_server")
    ask libs (create_service "robotA/set_bool" callback_a)
    ask libs (create_service "robotB/set_bool" callback_b)
    ask libs spin
    ask libs shutdown
    pure 0

  -- `SleepActionServer::SleepActionServer`
  unfoldable pub construct_sleep_server : Program (List Call) (Unit {0})
  construct_sleep_server = do
    ask libs (make_node "sleep_action_server")
    ask libs (create_action_server "sleep_service")

  unfoldable pub sleep_server : Program (List Call) ℕ
  sleep_server = do ask libs init; construct_sleep_server; ask libs spin; pure 0

  unfoldable pub sample_bt_executor : Program (List Call) ℕ
  sample_bt_executor = do
    ask libs init
    ask libs make_action_server
    ask libs make_executor
    ask libs add_node
    ask libs spin
    ask libs remove_node
    ask libs shutdown
    pure 0
