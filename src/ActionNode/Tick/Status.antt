-- ===== src/ActionNode/Tick/Status.antt =====
-- Which statuses `RosActionNode::tick` returns.
use behavior_tree_ros.Prelude.{Bool, true, false, none, ◌≡◌, ◌⊎◌, arith, ◌+◌, ltb}
use behavior_tree_ros.Program.{Outcome, done, throws, faults}
use behavior_tree_ros.Ros.{Api, IsDocumented, NodeStatus, running, failure}
use behavior_tree_ros.ActionNode.{State, Env, WrappedResult, ResultCode, server_unreachable, now}
use behavior_tree_ros.ActionNode.Cancel.{run_callbacks, spin_until_future_complete}
use behavior_tree_ros.ActionNode.Tick.{
  checked, refresh_client, send_goal, start, answer_result, answer_feedback, after_goal,
  accept_reply, goal_answered, await_goal, poll, dispatch, tick_connected, tick,
}

module _ {G F R : Type 0} (api : Api) (e : Env G F R) where
  -- RUNNING, a completed status, the status that the last `onFeedback` asked for, or what
  -- `onFailure(SERVER_UNREACHABLE)` answered.
  abbrev pub Answer : NodeStatus → State G R → Type 0
  Answer v t =
      (v ≡ running)
      ⊎ (api.is_status_completed v ≡ true)
      ⊎ (v ≡ t.on_feedback_state_change)
      ⊎ (e.on_failure server_unreachable none ≡ done v)

  -- What holds of a call that returns.
  abbrev Returns : Outcome NodeStatus × State G R → Type 0
  Returns (done v, t) = Answer v t
  Returns (throws x, t) = Unit {0}
  Returns (faults u, t) = Unit {0}

  checked-Returns : (o : Outcome NodeStatus) (s : State G R) → Returns (checked api e o s)
  unfolding checked
  checked-Returns o s = ground arith

  answer_result-Returns :
      (c : ResultCode) (r : WrappedResult R) (s : State G R) → Returns (answer_result api e c r s)
  unfolding answer_result checked
  answer_result-Returns c r s = ground arith

  after_goal-Returns : (s : State G R) → Returns (after_goal api e s)
  unfolding after_goal answer_feedback
  after_goal-Returns s = ground (arith, answer_result-Returns s.result.code s.result s)

  goal_answered-Returns : (b c : Bool) (s : State G R) → Returns (goal_answered api e b c s)
  unfolding goal_answered accept_reply checked
  goal_answered-Returns b c s = ground (
    arith,
    after_goal-Returns (record s {
      node = record (s.node) {
        goal_received = true;
        goal_handle = e.goal_reply;
        future_goal_handle = false;
      };
    }),
  )

  poll-Returns : (s : State G R) → Returns (poll api e s)
  unfolding poll await_goal
  poll-Returns s =
      let t = (run_callbacks e.hooks e.spin_some s).1 in
      let u = (spin_until_future_complete e.hooks t.future_goal_handle e.spin_goal t).1 in
      ground (
        arith,
        after_goal-Returns t,
        goal_answered-Returns true
            (ltb (u.time_goal_sent + api.from_seconds u.server_timeout) (now e)) u,
        goal_answered-Returns false
            (ltb (u.time_goal_sent + api.from_seconds u.server_timeout) (now e)) u,
      )

  dispatch-Returns : (v : NodeStatus) (s : State G R) → Returns (dispatch api e v s)
  unfolding dispatch start send_goal checked
  dispatch-Returns v s = ground (arith, poll-Returns s)

  -- With the documented `isStatusCompleted`: a tick that returns gives RUNNING, a completed status,
  -- the status that the last `onFeedback` asked for, or the unchecked answer of
  -- `onFailure(SERVER_UNREACHABLE)`; `CheckStatus` stops all else.
  pub tick-Answer :
      IsDocumented api
      → (s t : State G R) (v : NodeStatus) → tick api e s ≡ (done v, t)
      → Answer v t
  unfolding tick tick_connected
  tick-Answer d s t v h =
      let c = (refresh_client api e s).1 in
      ground (arith, d.completed failure, dispatch-Returns c.status c)
