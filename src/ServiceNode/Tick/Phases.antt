-- ===== src/ServiceNode/Tick/Phases.antt =====
-- What `RosServiceNode::tick` does in each phase of a request.
use behavior_tree_ros.Prelude.{
  List, ◌≡◌, ◌∷◌, is_some, true, [], false, ℕ, some, ◌⊎◌, ◌+◌, arith, none, ◌≢◌, Option, ltb, Bool,
  Option-cases, inl, Bool-cases, inr,
}
use behavior_tree_ros.ServiceNode.{
  State, Call, Env, async_send_request, service_unreachable, invalid_request, service_timeout, now,
}
use behavior_tree_ros.Ros.{
  Api, running, idle, IsDocumented, NodeStatus, failure, FutureReturnCode, completed,
}
use behavior_tree_ros.ServiceNode.Tick.{
  tick, with_client, refresh_client, dispatch, start, poll, send_request, await_response,
  response_answered, checked, spin_until_future_complete, accept_response, answer_response, halt,
}
use behavior_tree_ros.Program.{done, throws, runtime_error, Outcome, Outcome-cases, faults}

abbrev pub requests : {Q : Type 0} → List (Call Q) → List Q
requests [] = []
requests (async_send_request q ∷ cs) = q ∷ requests cs
requests (_ ∷ cs) = requests cs

-- A node that has been started and has not finished.
pub record IsWaiting {Q R : Type 0} (s : State Q R) : Type 0 where
  pub on : s.status ≡ running
  pub has_client : is_some s.srv_instance ≡ true
  pub in_flight : s.response_received ≡ false → s.future_response ≡ true

module _ {Q R : Type 0} (api : Api) (e : Env Q R) where
  -- With the documented `isStatusCompleted`: every status that `tick` returns is RUNNING, a
  -- completed one, or the unchecked answer of `onFailure(SERVICE_UNREACHABLE)`.
  tick_answers :
      IsDocumented api
      → (s t : State Q R) (v : NodeStatus) → tick api e s ≡ (done v, t)
      → (v ≡ running)
        ⊎ (api.is_status_completed v ≡ true)
        ⊎ (e.on_failure service_unreachable ≡ done v)
  unfolding tick with_client dispatch start send_request poll await_response response_answered
      accept_response answer_response checked
  tick_answers d s t v h = ground (arith, d.completed failure)

  -- What the first tick owes, for each answer of `setRequest` and of the service.
  abbrev pub Started :
      Outcome (Option Q) → Bool → State Q R → Outcome NodeStatus × State Q R → Type 0
  Started (done (some q)) true s (o, t) =
      (o ≡ done running) × (requests t.calls ≡ q ∷ requests s.calls) × IsWaiting t
  Started (done (some q)) false s (o, t) =
      (o ≡ e.on_failure service_unreachable) × (requests t.calls ≡ requests s.calls)
  Started (done none) ready s (o, t) =
      (o ≡ (checked api e (e.on_failure invalid_request) s).0)
      × (requests t.calls ≡ requests s.calls)
  Started (throws x) ready s (o, t) = (o ≡ throws x) × (requests t.calls ≡ requests s.calls)
  Started (faults u) ready s (o, t) = (o ≡ faults u) × (requests t.calls ≡ requests s.calls)

  -- The first tick, while rclcpp is up and with a client whose name is not looked up again: the
  -- request of `setRequest` is sent once, exactly if `setRequest` gives one and the service is
  -- ready; else nothing is sent and `onFailure` answers, or what `setRequest` threw goes on.
  tick_sends_request :
      (client : ℕ) (s : State Q R)
      → e.rclcpp_ok ≡ true
      → s.status ≡ idle
      → s.srv_instance ≡ some client
      → s.service_name_should_be_checked ≡ false
      → Started e.set_request e.service_ready s (tick api e s)
  unfolding tick refresh_client with_client dispatch start send_request checked
  tick_sends_request client s alive first has_client fixed = elim (Outcome-cases e.set_request) [
    | inl (some q, p) ↦ rw p (elim (Bool-cases e.service_ready) [
      | inl r ↦ rw r (ground arith)
      | inr r ↦ rw r (ground arith)
    ])
    | inl (none, p) ↦ rw p (ground arith)
    | inr p ↦ ground arith
  ]

  -- What a tick owes that finds the request's future complete or not.
  abbrev pub Waited :
      FutureReturnCode → Option R → Bool → State Q R → Outcome NodeStatus × State Q R → Type 0
  Waited completed (some r) late s (o, t) =
      o ≡ (checked api e (e.on_response_received (some r)) s).0
  Waited completed none late s (o, t) =
      o ≡ throws (runtime_error "Request was rejected by the service")
  Waited _ reply true s (o, t) = o ≡ (checked api e (e.on_failure service_timeout) s).0
  Waited _ reply false s (o, t) = (o ≡ done running) × IsWaiting t

  -- A tick of a waiting node whose response has not come, while rclcpp is up and where spinning
  -- returns, sends nothing. It has the response handled when it comes, throws when the response is
  -- null, ends by `onFailure(SERVICE_TIMEOUT)` when more than the timeout has passed since the
  -- request, and else leaves a waiting node and is RUNNING.
  tick_waits :
      (code : FutureReturnCode) (s : State Q R)
      → IsWaiting s
      → e.rclcpp_ok ≡ true
      → s.response_received ≡ false
      → e.spin_some ≡ done tt
      → e.spin_response ≡ done code
      → let late = ltb (s.time_request_sent + api.from_seconds s.service_timeout_ms) (now e) in
        (requests (tick api e s).1.calls ≡ requests s.calls)
        × Waited code e.response_reply late s (tick api e s)
  unfolding tick refresh_client with_client dispatch poll await_response spin_until_future_complete
      response_answered accept_response answer_response checked
  tick_waits code s live alive waits spun replied = (
    ground arith,
    elim (Option-cases e.response_reply) [
      | inl p ↦ rw p (ground arith)
      | inr (r, p) ↦ rw p (ground arith)
    ],
  )

  -- With the documented `isStatusCompleted`: a tick that returns RUNNING leaves a waiting node
  -- (running, with a client, and with a valid future until the response has come), from a node that
  -- was waiting or was idle with a client that is not looked up again; `onFailure` must not answer
  -- RUNNING to SERVICE_UNREACHABLE, which `tick` does not check.
  pub tick-IsWaiting :
      IsDocumented api
      → (s t : State Q R)
      → (s.status ≡ idle)
          × (is_some s.srv_instance ≡ true)
          × (s.service_name_should_be_checked ≡ false)
        ⊎ IsWaiting s
      → e.on_failure service_unreachable ≢ done running
      → tick api e s ≡ (done running, t)
      → IsWaiting t
  unfolding tick refresh_client with_client dispatch start send_request poll await_response
      spin_until_future_complete response_answered accept_response answer_response checked halt
  tick-IsWaiting d s t ready sound h = ground (arith, d.completed running)
