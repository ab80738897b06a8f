-- ===== src/ServiceNode/Tick.antt =====
-- bt_service_node.hpp: `tick`, one function for each part of its body, and `halt`.
pub mod Phases
use behavior_tree_ros.Prelude.{
  Option, if◌then◌else◌, ℕ, not, ltb, some, is_some, false, ◌+◌, none, ◌||◌, true, ◌&&◌, ◌∷◌,
  get_or, str_eq, Bool,
}
use behavior_tree_ros.Program.{
  Program, Outcome, ◌>>=◌, gets, lift, throw, pure, ◌>>◌, logic_error, runtime_error, fault, when,
  modify, invalid_future, ignore,
}
use behavior_tree_ros.Ros.{
  Api, NodeStatus, is_running, running, failure, idle, is_idle, FutureReturnCode, is_complete,
}
use behavior_tree_ros.ServiceNode.{
  State, invalid_request, update, service_timeout, async_send_request, service_unreachable,
  create_client, Env, now,
}

module _ {Q R : Type 0} where
  -- `halt`: a running node is reset to IDLE; the response that is awaited is left alone.
  unfoldable pub halt : Program (State Q R) (Unit {0})
  halt = do
    is_on ← gets λ s. is_running s.status
    when is_on (update λ n. record n { status = idle })

module _ {Q R : Type 0} (api : Api) (e : Env Q R) where
  -- `return CheckStatus(callback)`
  unfoldable pub check_status : NodeStatus → Program (State Q R) NodeStatus
  check_status status =
      if api.is_status_completed status
      then pure status
      else throw (logic_error "RosServiceNode: the callback must return either SUCCESS nor FAILURE")

  unfoldable pub checked : Outcome NodeStatus → Program (State Q R) NodeStatus
  unfolding check_status
  checked answer = lift answer >>= check_status

  -- Make a client where there is none, or where the name in the port may have changed.
  unfoldable pub refresh_client : Program (State Q R) (Unit {0})
  refresh_client = do
    stale ←
        gets λ s.
          not (is_some s.srv_instance) || (is_idle s.status && s.service_name_should_be_checked)
    let name = get_or e.service_name_input ""
    same ← gets λ s. str_eq s.service_name name
    when (stale && not same) (ignore (create_client e name))

  unfoldable pub send_request : Option Q → Program (State Q R) NodeStatus
  send_request none = checked (e.on_failure invalid_request)
  send_request (some request) =
      if e.service_ready
      then (do
        modify λ s. record s {
          node = record (s.node) { future_response = true; time_request_sent = now e };
          calls = async_send_request request ∷ s.calls;
        }
        pure running)
      else lift (e.on_failure service_unreachable)

  -- The first step: `status() == IDLE`.
  unfoldable pub start : Program (State Q R) NodeStatus
  start = do
    update λ n. record n {
      status = running;
      response_received = false;
      future_response = false;
      on_feedback_state_change = running;
      response = none;
    }
    lift e.set_request >>= send_request

  -- SECOND case: the response.
  unfoldable pub answer_response : Program (State Q R) NodeStatus
  answer_response = do r ← gets λ s. s.response; checked (e.on_response_received r)

  unfoldable pub accept_response : Option R → Program (State Q R) NodeStatus
  accept_response none = throw (runtime_error "Request was rejected by the service")
  accept_response (some r) = answer_response

  -- The two branches on `ret`, and that on the timeout.
  unfoldable pub response_answered : Bool → Bool → Program (State Q R) NodeStatus
  response_answered true late = do
    update λ n. record n {
      response_received = true;
      response = e.response_reply;
      future_response = false;
    }
    accept_response e.response_reply
  response_answered false true = checked (e.on_failure service_timeout)
  response_answered false false = pure running

  -- `spin_until_future_complete` on a future that is valid or not.
  unfoldable pub spin_until_future_complete : Bool → Program (State Q R) FutureReturnCode
  spin_until_future_complete false = fault invalid_future
  spin_until_future_complete true = lift e.spin_response

  -- FIRST case: no response yet.
  unfoldable pub await_response : Program (State Q R) NodeStatus
  await_response = do
    valid ← gets λ s. s.future_response
    code ← spin_until_future_complete valid
    late ← gets λ s. ltb (s.time_request_sent + api.from_seconds s.service_timeout_ms) (now e)
    response_answered (is_complete code) late

  -- `status() == RUNNING`
  unfoldable pub poll : Program (State Q R) NodeStatus
  poll = do
    lift e.spin_some
    received ← gets λ s. s.response_received
    if received then answer_response else await_response

  unfoldable pub dispatch : NodeStatus → Program (State Q R) NodeStatus
  dispatch idle = start
  dispatch running = poll
  dispatch _ = pure running

  unfoldable pub with_client : Option ℕ → Program (State Q R) NodeStatus
  with_client none s =
      throw
        (runtime_error
          "RosServiceNode: no service client was specified neither as default or in the ports")
        s
  with_client (some client) s = dispatch s.status s

  unfoldable pub tick : Program (State Q R) NodeStatus
  tick =
      if e.rclcpp_ok
      then (refresh_client >> (λ s. with_client s.srv_instance s))
      else (halt >> pure failure)
