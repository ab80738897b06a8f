-- ===== src/Samples/Programs/Meeting.antt =====
-- bool_client.cpp against bool_server.cpp: each node of the tree finds the server and succeeds.
use behavior_tree_ros.Samples.Programs.Clients.{
  IsClient, IsServed, construct_default-IsClient, construct_named-IsClient,
}
use behavior_tree_ros.Samples.Programs.Asking.{set_bool_succeeds, robot_succeeds}
use behavior_tree_ros.Samples.Programs.{
  Call, Libraries, bool_client, bool_server, bool_tree, set_bool_service, set_robot_bool_service,
  service_node,
}
use behavior_tree_ros.Samples.Programs.Nodes.{
  Attributes, InputPorts, service_of, ask_once, callback_of, construct_node, flag, leaves,
  IsReading, attribute,
}
use behavior_tree_ros.ServiceNode.{Env, State}
use behavior_tree_ros.Prelude.{
  String, ◌≡◌, true, false, some, ◌≢◌, arith, eq_iff, List, refl, ◌∷◌, [], none, Bool,
}
use behavior_tree_ros.Ros.{running, Api, IsDocumented, idle, success}
use behavior_tree_ros.Program.{done}
use behavior_tree_ros.Samples.SetBool.{callback_b, callback_a, set_bool_ports, robot_ports}
use behavior_tree_ros.RosNodeParams.{RosNodeParams, without_port, with_port}
use behavior_tree_ros.Ports.{PortsList, has, insert, insert_range, text_port, find_port}

-- What the two programs ask for, where all calls return.
abbrev client_calls : List Call
client_calls =
    Call.tick_while_running
    ∷ Call.create_tree_from_text bool_tree
    ∷ Call.register_node_type "SetRobotBool" (service_node (set_robot_bool_service "set_bool"))
    ∷ Call.register_node_type "SetBool" (service_node (set_bool_service without_port))
    ∷ Call.register_node_type "SetBoolA"
        (service_node (set_bool_service (with_port "robotA/set_bool")))
    ∷ Call.make_node "bool_client"
    ∷ Call.init
    ∷ []

abbrev server_calls : List Call
server_calls =
    Call.shutdown
    ∷ Call.spin
    ∷ Call.create_service "robotB/set_bool" callback_b
    ∷ Call.create_service "robotA/set_bool" callback_a
    ∷ Call.make_node "add_two_ints_server"
    ∷ Call.init
    ∷ []

module _ (libs : Libraries) (returns : (c : Call) → libs.answer c ≡ done tt) where
  bool_client-calls : (bool_client libs []).1 ≡ client_calls
  unfolding bool_client
  bool_client-calls = simp returns

  bool_server-calls : (bool_server libs []).1 ≡ server_calls
  unfolding bool_server
  bool_server-calls = simp returns

module _ (api : Api) (ports : InputPorts) (made first second : Env Bool Bool) where
  -- What becomes of one node: its class is registered, and its two ticks return RUNNING and SUCCESS.
  abbrev pub Succeeds : List Call → List Call → State Bool Bool → String × Attributes → Type 0
  Succeeds client server s (id, xs) = elim (service_of id client) [
    | some type ↦
        (ask_once api ports made first second server type xs s).0 ≡ done (running, success)
    | none ↦ ⊥
  ]

  abbrev pub AllSucceed :
      List Call → List Call → State Bool Bool → List (String × Attributes) → Type 0
  AllSucceed client server s [] = Unit
  AllSucceed client server s (node ∷ nodes) =
      Succeeds client server s node × AllSucceed client server s nodes

-- A name that `createClient` takes.
abbrev IsName : String → Type 0
IsName name = (name ≢ "") × (name ≢ "__default__placeholder__")

robot_a-IsName : IsName "robotA/set_bool"
robot_a-IsName = (
  ground (arith, eq_iff "robotA/set_bool" ""),
  ground (arith, eq_iff "robotA/set_bool" "__default__placeholder__"),
)

robot_b-IsName : IsName "robotB/set_bool"
robot_b-IsName = (
  ground (arith, eq_iff "robotB/set_bool" ""),
  ground (arith, eq_iff "robotB/set_bool" "__default__placeholder__"),
)

module _ (api : Api) (d : IsDocumented api) (ports : InputPorts) (made first second : Env Bool Bool)
    (full : String) (made_served : IsServed made full) (first_served : IsServed first full)
    (second_served : IsServed second full) where
  -- What the ports of the four nodes read.
  reads_flag :
      (reading : IsReading ports) (declared : PortsList) (xs : Attributes)
      → has "value" declared ≡ true
      → attribute "value" xs ≡ some "true"
      → flag api ports declared xs ≡ some true
  reads_flag reading declared xs has_port has_text =
      rw (reading.given declared xs "value" "true" has_port has_text, flag) reading.reads_true

  default_node-IsClient :
      (reading : IsReading ports) (params : RosNodeParams) (xs : Attributes) (s : State Bool Bool)
      → attribute "service_name" xs ≡ none
      → params.default_port_value ≢ ""
      → params.default_port_value ≢ "__default__placeholder__"
      → api.is_blackboard_pointer "" ≡ false
      → let (o, t) = construct_node api ports made (set_bool_service params) xs s in
        (o ≡ done tt) × IsClient params.default_port_value t × (t.status ≡ idle)
  unfolding construct_node set_bool_ports find_port insert insert_range
  default_node-IsClient reading params xs s unnamed named real plain =
      rw
        (reading.defaulted set_bool_ports xs "service_name" (text_port "" "Service name") refl
          unnamed)
        (construct_default-IsClient api d made full made_served params s named real plain)

  named_node-IsClient :
      (reading : IsReading ports) (params : RosNodeParams) (xs : Attributes) (name : String)
      (s : State Bool Bool)
      → attribute "service_name" xs ≡ some name
      → name ≢ ""
      → name ≢ "__default__placeholder__"
      → api.is_blackboard_pointer name ≡ false
      → let (o, t) = construct_node api ports made (set_bool_service params) xs s in
        (o ≡ done tt) × IsClient name t × (t.status ≡ idle)
  unfolding construct_node set_bool_ports find_port insert insert_range
  named_node-IsClient reading params xs name s text named real plain =
      rw (reading.given set_bool_ports xs "service_name" name refl text)
        (construct_named-IsClient api d made full made_served name params s named real plain)

  -- bool_client against bool_server, where all their calls return, `isStatusCompleted` is as
  -- documented, and `""` and `robotB/set_bool` do not count as pointers to the blackboard: each of
  -- the four nodes of the client's tree has its class registered, and where it is constructed and
  -- then ticked twice, the construction returns, the first tick returns RUNNING and the second
  -- SUCCESS. A port reads its attribute, or else its default; the node's own ROS node lives, its
  -- client can be made, the service is ready, and the second tick brings the answer that the
  -- callback of the service of the node's name gives to the request that the first tick sent.
  pub bool_client_succeeds :
      (libs : Libraries) (s : State Bool Bool)
      → IsReading ports
      → ((c : Call) → libs.answer c ≡ done tt)
      → api.is_blackboard_pointer "" ≡ false
      → api.is_blackboard_pointer "robotB/set_bool" ≡ false
      → AllSucceed api ports made first second
          (bool_client libs []).1
          (bool_server libs []).1
          s
          (leaves bool_tree)
  unfolding leaves service_of callback_of with_port set_bool_ports robot_ports find_port insert
      insert_range
  bool_client_succeeds libs s reading returns plain_empty plain_robot =
      let sets : Attributes = ("value", "true") ∷ [] in
      let set_named : Attributes = ("service_name", "robotB/set_bool") ∷ sets in
      let set_a : Attributes = ("robot", "robotA") ∷ sets in
      let set_b : Attributes = ("robot", "robotB") ∷ sets in
      rw (bool_client-calls libs returns, bool_server-calls libs returns)
        (
          set_bool_succeeds api d ports made first second full made_served first_served
              second_served server_calls (with_port "robotA/set_bool") sets "robotA/set_bool"
              callback_a s
              (default_node-IsClient reading (with_port "robotA/set_bool") sets s refl
                robot_a-IsName.0 robot_a-IsName.1 plain_empty)
              (reads_flag reading set_bool_ports sets refl refl) refl refl,
          (
            set_bool_succeeds api d ports made first second full made_served first_served
                second_served server_calls without_port set_named "robotB/set_bool" callback_b s
                (named_node-IsClient reading without_port set_named "robotB/set_bool" s refl
                  robot_b-IsName.0 robot_b-IsName.1 plain_robot)
                (reads_flag reading set_bool_ports set_named refl refl) refl refl,
            (
              robot_succeeds api d ports made first second full made_served first_served
                  second_served server_calls "set_bool" "robotA" set_a callback_a s
                  (reading.given robot_ports set_a "robot" "robotA" refl refl)
                  (reads_flag reading robot_ports set_a refl refl)
                  (ground (arith, eq_iff "robotA" "")) robot_a-IsName.0 robot_a-IsName.1 refl refl,
              (
                robot_succeeds api d ports made first second full made_served first_served
                    second_served server_calls "set_bool" "robotB" set_b callback_b s
                    (reading.given robot_ports set_b "robot" "robotB" refl refl)
                    (reads_flag reading robot_ports set_b refl refl)
                    (ground (arith, eq_iff "robotB" "")) robot_b-IsName.0 robot_b-IsName.1 refl
                    refl,
                tt,
              ),
            ),
          ),
        )
