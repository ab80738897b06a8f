-- ===== src/Samples/Programs/Clients.antt =====
-- The nodes of bool_client.cpp with the services there: their clients, and their ticks.
use mathlib.Core.List.{head?}
use behavior_tree_ros.Samples.Programs.{Call}
use behavior_tree_ros.Samples.Programs.Nodes.{callback_of, answered, reply}
use behavior_tree_ros.ServiceNode.{
  Env, State, create_client, construct, set_service_name, use_port, members,
}
use behavior_tree_ros.ServiceNode.Tick.{
  tick, refresh_client, with_client, dispatch, start, send_request, poll, await_response,
  spin_until_future_complete, response_answered, accept_response, answer_response, checked,
  check_status,
}
use behavior_tree_ros.Prelude.{
  String, ◌≡◌, is_some, true, false, some, ◌≢◌, arith, eq_iff, List, ◌<>◌, refl, ◌∷◌, [], Bool,
}
use behavior_tree_ros.Registry.{acquire, create, lock, must_create}
use behavior_tree_ros.Ros.{running, completed, Api, IsDocumented, idle, success}
use behavior_tree_ros.ServiceNode.Tick.Phases.{requests}
use behavior_tree_ros.Program.{done}
use behavior_tree_ros.Samples.SetBool.{set_bool_env, use_robot}
use behavior_tree_ros.RosNodeParams.{RosNodeParams}

-- A node that has a client for the service `name`, and what it waits for.
pub record IsClient (name : String) (s : State Bool Bool) : Type 0 where
  pub named : s.service_name ≡ name
  pub has_client : is_some s.srv_instance ≡ true
  pub fixed : s.service_name_should_be_checked ≡ false

pub record HasAsked (name : String) (s : State Bool Bool) : Type 0 where
  pub client : IsClient name s
  pub on : s.status ≡ running
  pub waits : s.response_received ≡ false
  pub in_flight : s.future_response ≡ true
  pub asked : head? (requests s.calls) ≡ some true

-- What `createClient` leaves alone.
pub record Keeps (s t : State Bool Bool) : Type 0 where
  pub status : t.status ≡ s.status
  pub received : t.response_received ≡ s.response_received
  pub future : t.future_response ≡ s.future_response
  pub checks : t.service_name_should_be_checked ≡ s.service_name_should_be_checked
  pub requested : requests t.calls ≡ requests s.calls

-- A call in which the node lives, a client can be made, and the service is there and answers.
pub record IsServed (e : Env Bool Bool) (full : String) : Type 0 where
  pub ok : e.rclcpp_ok ≡ true
  pub node : e.ros_node ≡ some full
  pub made : e.make_instance ≡ done tt
  pub ready : e.service_ready ≡ true
  pub spun : e.spin_some ≡ done tt
  pub complete : e.spin_response ≡ done completed

module _ (e : Env Bool Bool) (full : String) (served : IsServed e full) where
  create_client-IsClient :
      (name : String) (s : State Bool Bool)
      → name ≢ ""
      → name ≢ "__default__placeholder__"
      → s.service_name_should_be_checked ≡ false
      → let (o, t) = create_client e name s in
        (o ≡ done e.service_found) × IsClient name t × Keeps s t
  unfolding create_client acquire create lock must_create
  create_client-IsClient name s named real fixed =
      ground (arith, eq_iff name "", eq_iff name "__default__placeholder__")

-- The answer of a server whose callback for the service answers SUCCESS to a request with the flag.
pub answered_reply :
    (server : List Call) (name : String) (callback : Bool → Bool) (e : Env Bool Bool)
    (s : State Bool Bool)
    → HasAsked name s
    → callback_of name server ≡ some callback
    → callback true ≡ true
    → (answered server s e).response_reply ≡ some true
answered_reply server name callback e s has_asked found agrees =
    rw (has_asked.client.named, found) (request_says (requests s.calls) has_asked.asked)
  where
    request_says : (qs : List Bool) → head? qs ≡ some true → reply (some callback) qs ≡ some true
    request_says [] h = cc
    request_says (q ∷ qs) h = ground (arith, agrees)

pub answered-IsServed :
    (server : List Call) (e : Env Bool Bool) (full : String) (s : State Bool Bool)
    → IsServed e full
    → IsServed (answered server s e) full
answered-IsServed server e full s served = record {
  ok = served.ok;
  node = served.node;
  made = served.made;
  ready = served.ready;
  spun = served.spun;
  complete = served.complete;
}

module _ (api : Api) (d : IsDocumented api) (e : Env Bool Bool) (full : String)
    (served : IsServed e full) where
  -- The first tick of a node with a client sends the flag.
  pub first_tick-HasAsked :
      (name : String) (s : State Bool Bool)
      → IsClient name s
      → s.status ≡ idle
      → let (o, t) = tick api (set_bool_env (some true) e) s in (o ≡ done running) × HasAsked name t
  unfolding tick refresh_client with_client dispatch start send_request
  first_tick-HasAsked name s client first = ground arith

  -- A tick while the node waits, in which a response that says `true` comes.
  pub next_tick_succeeds :
      (name : String) (s : State Bool Bool)
      → HasAsked name s
      → e.response_reply ≡ some true
      → (tick api (set_bool_env (some true) e) s).0 ≡ done success
  unfolding tick refresh_client with_client dispatch poll await_response spin_until_future_complete
      response_answered accept_response answer_response checked check_status
  next_tick_succeeds name s has_asked reply = ground (arith, d.completed success)

  pub construct_default-IsClient :
      (params : RosNodeParams) (s : State Bool Bool)
      → params.default_port_value ≢ ""
      → params.default_port_value ≢ "__default__placeholder__"
      → api.is_blackboard_pointer "" ≡ false
      → let (o, t) = construct api e (some "") params s in
        (o ≡ done tt) × IsClient params.default_port_value t × (t.status ≡ idle)
  unfolding construct use_port
  construct_default-IsClient params s named real plain =
      let made =
        create_client-IsClient e full served params.default_port_value
          (record s { node = members params }) named real refl in
      ground (arith, made, eq_iff params.default_port_value "")

  pub construct_named-IsClient :
      (name : String) (params : RosNodeParams) (s : State Bool Bool)
      → name ≢ ""
      → name ≢ "__default__placeholder__"
      → api.is_blackboard_pointer name ≡ false
      → let (o, t) = construct api e (some name) params s in
        (o ≡ done tt) × IsClient name t × (t.status ≡ idle)
  unfolding construct use_port
  construct_named-IsClient name params s named real plain =
      let made =
        create_client-IsClient e full served name (record s { node = members params }) named real
          refl in
      ground (arith, made, eq_iff name "")

  pub use_robot-IsClient :
      (env : Env Bool Bool) (suffix robot : String) (s : State Bool Bool)
      → IsServed env full
      → robot ≢ ""
      → robot <> "/" <> suffix ≢ ""
      → robot <> "/" <> suffix ≢ "__default__placeholder__"
      → s.service_name_should_be_checked ≡ false
      → let (o, t) = use_robot env suffix (some robot) s in
        (o ≡ done tt) × IsClient (robot <> "/" <> suffix) t × Keeps s t
  unfolding use_robot set_service_name
  use_robot-IsClient env suffix robot s env_served some_robot named real fixed =
      let name = robot <> "/" <> suffix in
      let made =
        create_client-IsClient env full env_served name
          (record s { node = record (s.node) { service_name = name } }) named real fixed in
      ground (arith, made, eq_iff robot "")
