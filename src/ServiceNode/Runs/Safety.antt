-- ===== src/ServiceNode/Runs/Safety.antt =====
-- What holds of a RosServiceNode at every moment of its life.
use behavior_tree_ros.ServiceNode.Runs.{
  ticks, halts, resets, others, here, next, IsSound, Step, Reach, can_tick, IsBenign, IsReady,
  set_status,
}
use behavior_tree_ros.Ros.{Api, IsDocumented, running, idle, NodeStatus}
use behavior_tree_ros.ServiceNode.{
  Env, create_client, construct, use_port, members, invalid_request, service_unreachable,
  service_timeout, State,
}
use behavior_tree_ros.ServiceNode.Tick.{
  refresh_client, send_request, with_client, await_response, checked, dispatch,
  spin_until_future_complete, check_status, response_answered, halt, accept_response,
  answer_response, start, tick, poll,
}
use behavior_tree_ros.Prelude.{
  ◌≡◌, String, arith, Option-cases, get_or, true, inl, is_some, inr, some, none, Bool-cases, str_eq,
  ◌||◌, refl, Option,
}
use behavior_tree_ros.RosNodeParams.{RosNodeParams}
use behavior_tree_ros.Program.{NeverFaults, done}
use behavior_tree_ros.ServiceNode.Tick.Phases.{IsWaiting, tick-IsWaiting}
use behavior_tree_ros.ActionNode.Runs.Safety.{is_running-cases}

module _ {Q R : Type 0} (api : Api) (e : Env Q R) where
  create_client-status :
      (name : String) (s : State Q R)
      → let t = (create_client e name s).1 in
        (t.status ≡ s.status) × (t.service_timeout_ms ≡ s.service_timeout_ms)
  unfolding create_client
  create_client-status name s =
      elim (Bool-cases (str_eq name "" || str_eq name "__default__placeholder__")) [
        | inl bad ↦ rw (bad, create_client) (refl, refl)
        | inr fine ↦ elim (Option-cases e.ros_node) [
          | inl gone ↦ rw (fine, gone, create_client) (refl, refl)
          | inr (full, alive) ↦ rw (fine, alive, create_client) (ground arith)
        ]
      ]

  pub refresh_client-status :
      (s : State Q R)
      → let t = (refresh_client api e s).1 in
        (t.status ≡ s.status) × (t.service_timeout_ms ≡ s.service_timeout_ms)
  unfolding refresh_client
  refresh_client-status s = ground (arith, create_client-status (get_or e.service_name_input "") s)

  start-IsWaiting :
      (s t : State Q R)
      → IsDocumented api
      → IsSound e
      → is_some s.srv_instance ≡ true
      → start api e s ≡ (done running, t)
      → IsWaiting t
  unfolding start send_request checked check_status
  start-IsWaiting s t d sound has_client h = ground (arith, d.completed running)

  tick_idle-IsWaiting :
      (s t : State Q R)
      → IsDocumented api
      → IsSound e
      → s.status ≡ idle
      → tick api e s ≡ (done running, t)
      → IsWaiting t
  unfolding tick with_client dispatch
  tick_idle-IsWaiting s t d sound first h =
      let c = (refresh_client api e s).1 in
      ground (arith, refresh_client-status s, start-IsWaiting c t d sound)

  tick-IsReady :
      (v : NodeStatus) (s t : State Q R)
      → IsDocumented api
      → IsSound e
      → can_tick s.status ≡ true
      → IsReady s
      → tick api e s ≡ (done v, t)
      → v ≡ running
      → IsWaiting t
  tick-IsReady v s t d sound can ready h on =
      let h' : tick api e s ≡ (done running, t) = ground arith in
      elim (is_running-cases s.status) [
        | inl p ↦ tick-IsWaiting api e d s t (inr (ready p)) sound h'
        | inr p ↦ tick_idle-IsWaiting s t d sound (ground arith) h'
      ]

  pub construct-status :
      (port : Option String) (p : RosNodeParams) (s : State Q R)
      → (construct api e port p s).1.status ≡ idle
  unfolding construct use_port
  construct-status none p s =
      ground (arith, create_client-status p.default_port_value (record s { node = members p }))
  construct-status (some port) p s =
      let s1 : State Q R = record s { node = members p } in
      let s2 : State Q R = record s1 {
        node = record (s1.node) { service_name_should_be_checked = true };
      } in
      ground (
        arith,
        create_client-status port s1,
        create_client-status p.default_port_value s1,
        create_client-status p.default_port_value s2,
        create_client-status p.default_port_value (create_client e port s1).1,
      )

  create_client-safe :
      IsBenign e → (name : String) (s : State Q R) → NeverFaults (create_client e name s).0
  unfolding create_client
  create_client-safe b name s =
      elim (Bool-cases (str_eq name "" || str_eq name "__default__placeholder__")) [
        | inl bad ↦ rw (bad, create_client) refl
        | inr fine ↦ elim (Option-cases e.ros_node) [
          | inl gone ↦ rw (fine, gone, create_client) refl
          | inr (full, alive) ↦ rw (fine, alive, create_client) (ground (arith, b.made))
        ]
      ]

  pub refresh_client-safe : IsBenign e → (s : State Q R) → NeverFaults (refresh_client api e s).0
  unfolding refresh_client
  refresh_client-safe b s = ground (arith, create_client-safe b (get_or e.service_name_input "") s)

  pub start-safe : IsBenign e → (s : State Q R) → NeverFaults (start api e s).0
  unfolding start send_request checked check_status
  start-safe b s =
      ground (arith, b.request_set, b.failed invalid_request, b.failed service_unreachable)

  poll-safe : IsBenign e → (s : State Q R) → IsWaiting s → NeverFaults (poll api e s).0
  unfolding poll await_response spin_until_future_complete response_answered accept_response
      answer_response checked check_status
  poll-safe b s live = ground (
    arith,
    b.spun,
    b.waited,
    b.failed service_timeout,
    b.response_received s.response,
    b.response_received e.response_reply,
  )

  tick-safe :
      IsBenign e
      → (s : State Q R) → can_tick s.status ≡ true
      → IsReady s
      → NeverFaults (tick api e s).0
  unfolding tick with_client dispatch halt
  tick-safe b s can ready =
      let c = (refresh_client api e s).1 in
      elim (is_running-cases s.status) [
        | inl p ↦ unfold refresh_client in ground (arith, poll-safe b s (ready p))
        | inr p ↦ ground (arith, refresh_client-safe b s, refresh_client-status s, start-safe b c)
      ]

module _ {Q R : Type 0} where
  set_status-IsReady :
      (v : NodeStatus) (t : State Q R) → (v ≡ running → IsWaiting t) → IsReady (set_status v t)
  set_status-IsReady v t live on = ground (arith, live on)

module _ {Q R : Type 0} (api : Api) (d : IsDocumented api) where
  Step-IsReady : {s t : State Q R} → Step api s t → IsReady s → IsReady t
  Step-IsReady {s} (ticks e v t sound can h) ready =
      set_status-IsReady v t (tick-IsReady api e v s t d sound can ready h)
  Step-IsReady (halts t h) ready = λ on. ground arith
  Step-IsReady (resets h) ready = λ on. ground arith
  Step-IsReady {s} (others r) ready = λ on. ground (arith, ready on)

  Reach-keeps : {s t : State Q R} → Reach api s t → IsReady s → IsReady t
  Reach-keeps here ready = ready
  Reach-keeps (next r st) ready = Step-IsReady st (Reach-keeps r ready)

  -- With the documented `isStatusCompleted`: a node that was constructed, and was then ticked while
  -- IDLE or RUNNING, halted and reset in any order, by ticks that return and with an `onFailure`
  -- that never answers RUNNING to SERVICE_UNREACHABLE, while other nodes change the registry, waits
  -- for a response whenever it is RUNNING, with a client and a valid future until the response has
  -- come, and a further `tick` while it is IDLE or RUNNING has no undefined behaviour where the
  -- derived class and rclcpp have none.
  pub life_without_faults :
      (made e : Env Q R) (port : Option String) (p : RosNodeParams) (s t u : State Q R)
      → construct api made port p s ≡ (done tt, t)
      → Reach api t u
      → can_tick u.status ≡ true
      → IsBenign e
      → IsReady u × NeverFaults (tick api e u).0
  life_without_faults made e port p s t u built r can b =
      let ready = Reach-keeps r (λ on. ground (arith, construct-status api made port p s)) in
      (ready, tick-safe api e b u can ready)
