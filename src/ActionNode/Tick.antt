-- ===== src/ActionNode/Tick.antt =====
-- bt_action_node.hpp: `tick`, one function for each part of its body.
pub mod Status
pub mod Phases
pub mod Live
pub mod Restart
use behavior_tree_ros.Prelude.{
  ℕ, ◌+◌, String, Bool, true, false, not, ◌&&◌, ◌||◌, Option, none, some, get_or, ltb, str_eq,
  is_some, if◌then◌else◌,
}
use behavior_tree_ros.Program.{
  Program, Outcome, runtime_error, logic_error, ◌>>=◌, ◌>>◌, pure, throw, lift, gets, modify, when,
  ignore,
}
use behavior_tree_ros.Ros.{
  Api, NodeStatus, running, success, failure, idle, skipped, is_running, is_idle, is_complete,
}
use behavior_tree_ros.ActionNode.{
  RosActionNode, State, Env, WrappedResult, ResultCode, unknown, succeeded, canceled, aborted,
  no_result, server_unreachable, send_goal_timeout, goal_rejected_by_server, action_aborted,
  action_cancelled, invalid_goal, async_send_goal, now,
}
use behavior_tree_ros.ActionNode.Client.{create_client}
use behavior_tree_ros.ActionNode.Cancel.{
  note, update, run_callbacks, spin_until_future_complete, cancel_goal, halt,
}

module _ {G F R : Type 0} (api : Api) (e : Env G F R) where
  -- The λ `CheckStatus`.
  unfoldable pub check_status : NodeStatus → Program (State G R) NodeStatus
  check_status status =
      if api.is_status_completed status
      then pure status
      else throw (logic_error "RosActionNode: the callback must return either SUCCESS nor FAILURE")

  -- `return CheckStatus(callback)`
  unfoldable pub checked : Outcome NodeStatus → Program (State G R) NodeStatus
  unfolding check_status
  checked answer = lift answer >>= check_status

  -- Make a client where there is none, or where the name in the port may have changed.
  unfoldable pub refresh_client : Program (State G R) (Unit {0})
  refresh_client = do
    stale ← gets λ s.
        not (is_some s.client_instance) || (is_idle s.status && s.action_name_should_be_checked)
    let name = get_or e.action_name_input ""
    same ← gets λ s. str_eq s.action_name name
    when (stale && not same) (ignore (create_client e name))

  -- The first step of the action: `status() == IDLE`.
  unfoldable pub send_goal : Option G → Program (State G R) NodeStatus
  send_goal none = checked (e.on_failure invalid_goal none)
  send_goal (some goal) =
      if e.server_ready
      then (do
        note (async_send_goal goal)
        update λ n. record n { future_goal_handle = true; time_goal_sent = now e }
        pure running)
      else lift (e.on_failure server_unreachable none)

  unfoldable pub start : Program (State G R) NodeStatus
  start = do
    update λ n. record n {
      status = running;
      goal_received = false;
      future_goal_handle = false;
      on_feedback_state_change = running;
      result = no_result;
    }
    lift e.set_goal >>= send_goal

  -- THIRD case: the result.
  unfoldable pub answer_result : ResultCode → WrappedResult R → Program (State G R) NodeStatus
  answer_result unknown r = pure running
  answer_result aborted r = checked (e.on_failure action_aborted (some r))
  answer_result canceled r = checked (e.on_failure action_cancelled (some r))
  answer_result succeeded r = checked (e.on_result_received r)

  -- SECOND case: `onFeedback` asked for a stop.
  unfoldable pub answer_feedback : NodeStatus → Program (State G R) NodeStatus
  answer_feedback running = do r ← gets λ s. s.result; answer_result r.code r
  answer_feedback _ = do cancel_goal e; gets λ s. s.on_feedback_state_change

  unfoldable pub after_goal : Program (State G R) NodeStatus
  after_goal s = answer_feedback s.on_feedback_state_change s

  unfoldable pub accept_reply : Option ℕ → Program (State G R) NodeStatus
  accept_reply none = checked (e.on_failure_code goal_rejected_by_server)
  accept_reply (some id) = after_goal

  -- The two branches on `ret`, and that on the timeout.
  unfoldable pub goal_answered : Bool → Bool → Program (State G R) NodeStatus
  goal_answered true late = do
    update λ n. record n {
      goal_received = true;
      goal_handle = e.goal_reply;
      future_goal_handle = false;
    }
    accept_reply e.goal_reply
  goal_answered false true = checked (e.on_failure send_goal_timeout none)
  goal_answered false false = pure running

  -- FIRST case: the goal request has no answer yet.
  unfoldable pub await_goal : Program (State G R) NodeStatus
  await_goal = do
    valid ← gets λ s. s.future_goal_handle
    code ← spin_until_future_complete e.hooks valid e.spin_goal
    late ← gets λ s. ltb (s.time_goal_sent + api.from_seconds s.server_timeout) (now e)
    goal_answered (is_complete code) late

  -- `status() == RUNNING`
  unfoldable pub poll : Program (State G R) NodeStatus
  poll = do
    run_callbacks e.hooks e.spin_some
    received ← gets λ s. s.goal_received
    if received then after_goal else await_goal

  unfoldable pub dispatch : NodeStatus → Program (State G R) NodeStatus
  dispatch idle = start
  dispatch running = poll
  dispatch _ = pure running

  unfoldable pub with_client : Option ℕ → Program (State G R) NodeStatus
  with_client none s =
      throw
        (runtime_error
          "RosActionNode: no client was specified, neither as default nor in the ports")
        s
  with_client (some client) s = dispatch s.status s

  unfoldable pub tick_connected : Program (State G R) NodeStatus
  unfolding with_client
  tick_connected s = with_client s.client_instance s

  unfoldable pub tick : Program (State G R) NodeStatus
  tick = if e.rclcpp_ok then (refresh_client >> tick_connected) else (halt e >> pure failure)
