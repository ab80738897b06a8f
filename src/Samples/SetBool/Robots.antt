-- ===== src/Samples/SetBool/Robots.antt =====
-- SetBool against its server, and SetRobotBool when its robot changes.
use behavior_tree_ros.ServiceNode.{Env, State, set_service_name, create_client}
use behavior_tree_ros.ServiceNode.Tick.{
  tick, refresh_client, with_client, dispatch, send_request, poll, await_response,
  spin_until_future_complete, response_answered, accept_response, answer_response, checked, halt,
  start,
}
use behavior_tree_ros.Ros.{Api, IsDocumented, idle, completed, running, success, failure}
use behavior_tree_ros.Prelude.{
  Option, Bool, get_or, false, String, ℕ, ◌≡◌, some, ◌≢◌, ◌<>◌, true, ◌<◌, ◌∷◌, if◌then◌else◌,
  arith, eq_iff, is_some,
}
use behavior_tree_ros.Samples.SetBool.{use_robot, callback_a, set_bool_env, tick_robot}
use behavior_tree_ros.Registry.{acquire, create, lock, must_create, find}
use behavior_tree_ros.ServiceNode.Tick.Phases.{IsWaiting, requests}
use behavior_tree_ros.TopicSubNode.{check_status}
use behavior_tree_ros.Program.{done, Outcome}

module _ (api : Api) (d : IsDocumented api) where
  abbrev asked : Option Bool → Bool
  asked value = get_or value false

  -- With the documented `isStatusCompleted`, SetBool against its server: a first tick that finds
  -- the service ready sends the port's value, and a second one to which the server's callback
  -- answers returns SUCCESS exactly if that value is true.
  set_bool_round_trip :
      (first second : Env Bool Bool) (value : Option Bool) (client : ℕ) (s : State Bool Bool)
      → s.status ≡ idle
      → s.srv_instance ≡ some client
      → s.service_name_should_be_checked ≡ false
      → first.rclcpp_ok ≡ true
      → first.service_ready ≡ true
      → second.rclcpp_ok ≡ true
      → second.spin_some ≡ done tt
      → second.spin_response ≡ done completed
      → second.response_reply ≡ some (callback_a (asked value))
      → let (o, t) = tick api (set_bool_env value first) s in
        (o ≡ done running)
        × (requests t.calls ≡ asked value ∷ requests s.calls)
        × ((tick api (set_bool_env value second) t).0
            ≡ done (if asked value then success else failure))
  unfolding tick refresh_client with_client dispatch start send_request poll await_response
      spin_until_future_complete response_answered accept_response answer_response checked
      check_status
  set_bool_round_trip first second value client s first_tick has_client fixed ok ready ok' spun
        waited replied =
      (ground arith, ground arith, ground (arith, d.completed success, d.completed failure))

  waiting_sends_nothing :
      (e : Env Bool Bool) (s : State Bool Bool)
      → IsWaiting s
      → requests (tick api e s).1.calls ≡ requests s.calls
  unfolding tick refresh_client with_client dispatch poll await_response spin_until_future_complete
      response_answered accept_response answer_response checked halt
  waiting_sends_nothing e s waits = ground arith

  -- What naming another service does to a waiting node.
  abbrev Renamed : ℕ → State Bool Bool → Outcome (Unit {0}) × State Bool Bool → Type 0
  Renamed client s (o, t) =
      (o ≡ done tt)
      × (t.srv_instance ≢ some client)
      × (is_some t.srv_instance ≡ true)
      × (t.status ≡ s.status)
      × (t.future_response ≡ s.future_response)
      × (t.response_received ≡ s.response_received)
      × (requests t.calls ≡ requests s.calls)

  set_service_name-Renamed :
      (e : Env Bool Bool) (name full : String) (client : ℕ) (s : State Bool Bool)
      → s.srv_instance ≡ some client
      → name ≢ ""
      → name ≢ "__default__placeholder__"
      → e.ros_node ≡ some full
      → e.make_instance ≡ done tt
      → client < s.registry.next_instance
      → find (full <> "/" <> name) s.registry.entries ≢ some client
      → Renamed client s (set_service_name e name s)
  unfolding set_service_name create_client acquire create lock must_create
  set_service_name-Renamed e name full client s held real named alive made old other =
      ground (arith, eq_iff name "", eq_iff name "__default__placeholder__")

  -- A running SetRobotBool that waits for a response, with a live ROS node, whose port comes to
  -- name another robot, one whose client can be made and has a key to which the registry does not
  -- give the same instance: `setServiceName` gives it another client, and leaves it RUNNING with
  -- the future of the request that it sent by the first; the tick that calls it sends nothing.
  pub robot_change_loses_request :
      (e : Env Bool Bool) (suffix robot full : String) (value : Option Bool) (client : ℕ)
      (s : State Bool Bool)
      → IsWaiting s
      → s.srv_instance ≡ some client
      → s.response_received ≡ false
      → robot ≢ ""
      → robot <> "/" <> suffix ≢ ""
      → robot <> "/" <> suffix ≢ "__default__placeholder__"
      → e.ros_node ≡ some full
      → e.make_instance ≡ done tt
      → client < s.registry.next_instance
      → find (full <> "/" <> (robot <> "/" <> suffix)) s.registry.entries ≢ some client
      → let (o, t) = use_robot (set_bool_env value e) suffix (some robot) s in
        (o ≡ done tt)
        × (t.srv_instance ≢ some client)
        × (t.status ≡ running)
        × (t.future_response ≡ true)
        × (requests (tick_robot api e suffix (some robot) value s).1.calls ≡ requests s.calls)
  unfolding use_robot tick_robot
  robot_change_loses_request e suffix robot full value client s waits held pending some_robot real
        named alive made old other =
      let name = robot <> "/" <> suffix in
      let e' = set_bool_env value e in
      let t = (set_service_name e' name s).1 in
      let r = set_service_name-Renamed e' name full client s held real named alive made old other in
      let waits' : IsWaiting t = ground (arith, r) in
      ground (arith, eq_iff robot "", r, waiting_sends_nothing e' t waits')
