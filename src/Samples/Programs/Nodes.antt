-- ===== src/Samples/Programs/Nodes.antt =====
-- The nodes of bool_client.cpp, made of what the program registered and of the attributes in its
-- XML, and the services of bool_server.cpp that answer them.
use behavior_tree_ros.Samples.Programs.{
  Call, ServiceType, Element, Elements, element, nothing, with_next, service_node, set_bool_service,
  set_robot_bool_service,
}
use behavior_tree_ros.Prelude.{
  List, Bool, none, ◌≡◌, if◌then◌else◌, some, true, str_eq, ◌∷◌, [], ◌++◌, String, Option,
}
use behavior_tree_ros.Ports.{PortsList, has, Port, find_port}
use behavior_tree_ros.Ros.{Api, NodeStatus}
use behavior_tree_ros.ServiceNode.{State, Env, construct}
use behavior_tree_ros.Samples.SetBool.{
  set_bool_ports, robot_ports, set_bool_env, construct_robot, tick_robot,
}
use behavior_tree_ros.ServiceNode.Tick.Phases.{requests}
use behavior_tree_ros.Program.{Program, ◌>>◌, ◌>>=◌, gets, pure}
use behavior_tree_ros.ServiceNode.Tick.{tick}

abbrev pub Attributes : Type 0
Attributes = List (String × String)

-- What BehaviorTree.CPP makes of an element's attributes: the text that a node finds at one of its
-- ports, and the conversion of a text to a flag.
pub record InputPorts : Type 0 where
  pub input_port : PortsList → Attributes → String → Option String
  pub to_bool : String → Option Bool

abbrev pub attribute : String → Attributes → Option String
attribute key [] = none
attribute key ((k, v) ∷ rest) = if str_eq k key then some v else attribute key rest

-- A port has the text of its attribute, or else its default.
pub record IsReading (ports : InputPorts) : Type 0 where
  pub given :
      (declared : PortsList) (xs : Attributes) (key value : String)
      → has key declared ≡ true
      → attribute key xs ≡ some value
      → ports.input_port declared xs key ≡ some value
  pub defaulted :
      (declared : PortsList) (xs : Attributes) (key : String) (p : Port)
      → find_port key declared ≡ some p
      → attribute key xs ≡ none
      → ports.input_port declared xs key ≡ p.default_value
  pub reads_true : ports.to_bool "true" ≡ some true

-- The elements without others in them, in their order.
unfoldable mutual
  pub leaves : Element → List (String × Attributes)
  leaves (element id xs nothing) = (id, xs) ∷ []
  leaves (element id xs (with_next x rest)) = leaves x ++ leaves_of rest

  pub leaves_of : Elements → List (String × Attributes)
  leaves_of nothing = []
  leaves_of (with_next x rest) = leaves x ++ leaves_of rest

-- What a program registered under a name, and the callback of a service that it made.
unfoldable pub service_of : String → List Call → Option ServiceType
service_of id [] = none
service_of id (Call.register_node_type k (service_node t) ∷ cs) =
    if str_eq k id then some t else service_of id cs
service_of id (_ ∷ cs) = service_of id cs

unfoldable pub callback_of : String → List Call → Option (Bool → Bool)
callback_of name [] = none
callback_of name (Call.create_service k callback ∷ cs) =
    if str_eq k name then some callback else callback_of name cs
callback_of name (_ ∷ cs) = callback_of name cs

-- The answer of the server to the last request.
abbrev pub reply : Option (Bool → Bool) → List Bool → Option Bool
reply (some callback) (request ∷ _) = some (callback request)
reply _ _ = none

abbrev pub answered : List Call → State Bool Bool → Env Bool Bool → Env Bool Bool
answered server s e = record e {
  response_reply = reply (callback_of s.service_name server) (requests s.calls);
}

module _ (api : Api) (ports : InputPorts) where
  abbrev pub flag : PortsList → Attributes → Option Bool
  flag declared xs = elim (ports.input_port declared xs "value") [
    | some text ↦ ports.to_bool text
    | none ↦ none
  ]

  unfoldable pub construct_node :
      Env Bool Bool → ServiceType → Attributes → Program (State Bool Bool) (Unit {0})
  unfolding set_bool_ports
  construct_node e (set_bool_service params) xs =
      construct api e (ports.input_port set_bool_ports xs "service_name") params
  construct_node e (set_robot_bool_service service_suffix) xs = construct_robot api e

  unfoldable pub tick_node :
      Env Bool Bool → ServiceType → Attributes → Program (State Bool Bool) NodeStatus
  unfolding set_bool_ports robot_ports
  tick_node e (set_bool_service params) xs = tick api (set_bool_env (flag set_bool_ports xs) e)
  tick_node e (set_robot_bool_service service_suffix) xs =
      tick_robot api e service_suffix (ports.input_port robot_ports xs "robot")
        (flag robot_ports xs)

  -- A node's construction and its first two ticks, the second with the answer of the server to
  -- what the first asked.
  unfoldable pub ask_once :
      Env Bool Bool
      → Env Bool Bool
      → Env Bool Bool
      → List Call
      → ServiceType
      → Attributes
      → Program (State Bool Bool) (NodeStatus × NodeStatus)
  ask_once made first second server type xs = do
    construct_node made type xs
    a ← tick_node first type xs
    s ← gets λ s. s
    b ← tick_node (answered server s second) type xs
    pure (a, b)
