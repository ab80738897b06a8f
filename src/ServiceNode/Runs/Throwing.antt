-- ===== src/ServiceNode/Runs/Throwing.antt =====
-- The life of a RosServiceNode in which ticks may also throw.
mod Tests
use behavior_tree_ros.ServiceNode.{
  Env, State, construct, invalid_request, service_unreachable, service_timeout,
}
use behavior_tree_ros.ServiceNode.Tick.{
  tick, refresh_client, with_client, dispatch, start, send_request, poll, await_response,
  spin_until_future_complete, response_answered, accept_response, answer_response, checked,
  check_status, halt,
}
use behavior_tree_ros.ServiceNode.Runs.{set_status, can_tick, IsBenign}
use behavior_tree_ros.ServiceNode.Runs.Safety.{
  refresh_client-status, refresh_client-safe, construct-status, start-safe,
}
use behavior_tree_ros.ActionNode.Runs.Safety.{is_running-cases}
use behavior_tree_ros.RosNodeParams.{RosNodeParams}
use behavior_tree_ros.Registry.{Registry}
use behavior_tree_ros.Ros.{Api, NodeStatus, idle, running, is_running}
use behavior_tree_ros.Prelude.{
  Option, ◌≡◌, true, false, is_some, arith, inl, inr, not, ◌&&◌, Bool, String,
}
use behavior_tree_ros.Program.{Outcome, Exception, done, throws, is_fault}

module _ {Q R : Type 0} where
  abbrev pub HasClient : State Q R → Type 0
  HasClient s = s.status ≡ running → is_some s.srv_instance ≡ true

  -- What a tick leaves, however it ends.
  abbrev KeepsClient : Outcome NodeStatus × State Q R → Type 0
  KeepsClient (o, t) = HasClient t × (o ≡ done running → is_some t.srv_instance ≡ true)

  -- A node that was started and has not sent its request.
  abbrev pub is_unsent : State Q R → Bool
  is_unsent s = is_running s.status && not s.response_received && not s.future_response

module _ {Q R : Type 0} (api : Api) (e : Env Q R) where
  start-client : (s : State Q R) → (start api e s).1.srv_instance ≡ s.srv_instance
  unfolding start send_request checked check_status
  start-client s = ground arith

  poll-client : (s : State Q R) → (poll api e s).1.srv_instance ≡ s.srv_instance
  unfolding poll await_response spin_until_future_complete response_answered accept_response
      answer_response checked check_status
  poll-client s = ground arith

  running-KeepsClient :
      (s : State Q R)
      → s.status ≡ running
      → is_some s.srv_instance ≡ true
      → KeepsClient (tick api e s)
  unfolding tick with_client refresh_client dispatch halt
  running-KeepsClient s on has_client =
      (ground (arith, poll-client s), ground (arith, poll-client s))

  resting-KeepsClient : (s : State Q R) → is_running s.status ≡ false → KeepsClient (tick api e s)
  unfolding tick with_client dispatch halt
  resting-KeepsClient s off =
      let c = (refresh_client api e s).1 in
      let same = refresh_client-status api e s in
      (ground (arith, same, start-client c), ground (arith, same, start-client c))

  tick-KeepsClient : (s : State Q R) → HasClient s → KeepsClient (tick api e s)
  tick-KeepsClient s has = elim (is_running-cases s.status) [
    | inl on ↦ running-KeepsClient s on (has on)
    | inr off ↦ resting-KeepsClient s off
  ]

-- As `Step`, but a tick may throw: the state is then as it left it.
pub data Step {Q R : Type 0} (api : Api) (s : State Q R) : State Q R → Type 0 where
  ticks :
      (e : Env Q R) (v : NodeStatus) (t : State Q R)
      → can_tick s.status ≡ true
      → tick api e s ≡ (done v, t)
      → Step api s (set_status v t)
  tick_throws :
      (e : Env Q R) (x : Exception) (t : State Q R)
      → can_tick s.status ≡ true
      → tick api e s ≡ (throws x, t)
      → Step api s t
  halts : (t : State Q R) → halt s ≡ (done tt, t) → Step api s (set_status idle t)
  resets : is_running s.status ≡ false → Step api s (set_status idle s)
  others : (r : Registry) → Step api s (record s { registry = r })

pub data Reach {Q R : Type 0} (api : Api) (s : State Q R) : State Q R → Type 0 where
  here : Reach api s s
  next : {t u : State Q R} → Reach api s t → Step api t u → Reach api s u

module _ {Q R : Type 0} (api : Api) where
  Step-HasClient : {s t : State Q R} → Step api s t → HasClient s → HasClient t
  Step-HasClient {s} (ticks e v t can h) has on =
      ground (arith, h, on, (tick-KeepsClient api e s has).1)
  Step-HasClient {s} (tick_throws e x t can h) has on =
      ground (arith, h, on, (tick-KeepsClient api e s has).0)
  Step-HasClient (halts t h) has on = ground (arith, on)
  Step-HasClient (resets off) has on = ground (arith, on)
  Step-HasClient (others r) has on = has on

  Reach-HasClient : {s t : State Q R} → Reach api s t → HasClient s → HasClient t
  Reach-HasClient here has = has
  Reach-HasClient (next r st) has = Step-HasClient st (Reach-HasClient r has)

module _ {Q R : Type 0} (api : Api) (e : Env Q R) (b : IsBenign e) where
  poll-faults :
      (s : State Q R)
      → e.spin_some ≡ done tt
      → is_fault (poll api e s).0 ≡ (not s.response_received && not s.future_response)
  unfolding poll await_response spin_until_future_complete response_answered accept_response
      answer_response checked check_status
  poll-faults s spun = ground (
    arith,
    spun,
    b.waited,
    b.failed service_timeout,
    b.response_received s.response,
    b.response_received e.response_reply,
  )

  tick-faults :
      (s : State Q R)
      → HasClient s
      → can_tick s.status ≡ true
      → e.rclcpp_ok ≡ true
      → e.spin_some ≡ done tt
      → is_fault (tick api e s).0 ≡ is_unsent s
  unfolding tick with_client dispatch
  tick-faults s has can up spun =
      let c = (refresh_client api e s).1 in
      elim (is_running-cases s.status) [
        | inl on ↦ unfold refresh_client in ground (arith, has on, poll-faults s spun)
        | inr off ↦ ground (
          arith,
          refresh_client-safe api e b s,
          refresh_client-status api e s,
          start-safe api e b c,
        )
      ]

  -- A node that was constructed, and was then ticked, halted and reset in any order, by ticks that
  -- may also throw, while other nodes change the registry: a further tick while it is IDLE or
  -- RUNNING, rclcpp is up and `spin_some` returns, and where the derived class and rclcpp have no
  -- undefined behaviour, has undefined behaviour exactly if the node is RUNNING without a response
  -- and without a valid future.
  pub faults_exactly_unsent :
      (made : Env Q R) (port : Option String) (p : RosNodeParams) (s t u : State Q R)
      → construct api made port p s ≡ (done tt, t)
      → Reach api t u
      → can_tick u.status ≡ true
      → e.rclcpp_ok ≡ true
      → e.spin_some ≡ done tt
      → is_fault (tick api e u).0 ≡ is_unsent u
  faults_exactly_unsent made port p s t u built r can up spun =
      let rest : t.status ≡ idle = ground (arith, built, construct-status api made port p s) in
      let has = Reach-HasClient api r (λ on. ground (arith, rest, on)) in
      tick-faults u has can up spun
