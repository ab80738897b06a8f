-- ===== src/ActionNode/Tick/Phases.antt =====
-- What `RosActionNode::tick` does in each phase of a goal: the first tick, the wait for the server's
-- answer, and the wait for the result.
use behavior_tree_ros.ActionNode.Cancel.Handles.{
  sent, cancelled, run_callbacks-Keeps, spin-Keeps, cancel_goal-Cancels,
}
use behavior_tree_ros.Ros.{Api, idle, running, FutureReturnCode, completed, NodeStatus}
use behavior_tree_ros.ActionNode.{
  Env, State, unknown, no_result, aborted, server_unreachable, action_aborted, canceled,
  invalid_goal, action_cancelled, send_goal_timeout, succeeded, ResultCode, WrappedResult, now,
}
use behavior_tree_ros.ActionNode.Tick.{
  tick, tick_connected, refresh_client, dispatch, start, poll, send_goal, await_goal, after_goal,
  checked, goal_answered, answer_feedback, answer_result,
}
use behavior_tree_ros.Prelude.{
  ℕ, ◌≡◌, true, some, false, ◌∷◌, ◌≢◌, ◌+◌, arith, none, if◌then◌else◌, ◌⊎◌, Option, ltb, inl, Bool,
  Bool-cases, inr,
}
use behavior_tree_ros.ActionNode.Cancel.{run_callbacks, spin_until_future_complete, cancel_goal}
use behavior_tree_ros.Program.{done, Outcome, Outcome-cases, throws, faults}
use behavior_tree_ros.ActionNode.Tick.Restart.{run_callbacks-result}

module _ {G F R : Type 0} (api : Api) (e : Env G F R) where
  -- What the first tick owes, for each answer of `setGoal` and of the server.
  abbrev pub Started :
      Outcome (Option G) → Bool → State G R → Outcome NodeStatus × State G R → Type 0
  Started (done (some goal)) true s (o, t) =
      (o ≡ done running)
      × (sent t.calls ≡ goal ∷ sent s.calls)
      × (t.future_goal_handle ≡ true)
      × (t.goal_received ≡ false)
      × (t.time_goal_sent ≡ now e)
      × (t.result ≡ no_result)
  Started (done (some goal)) false s (o, t) =
      (o ≡ e.on_failure server_unreachable none) × (sent t.calls ≡ sent s.calls)
  Started (done none) ready s (o, t) =
      (o ≡ (checked api e (e.on_failure invalid_goal none) s).0) × (sent t.calls ≡ sent s.calls)
  Started (throws x) ready s (o, t) = (o ≡ throws x) × (sent t.calls ≡ sent s.calls)
  Started (faults u) ready s (o, t) = (o ≡ faults u) × (sent t.calls ≡ sent s.calls)

  -- The first tick, while rclcpp is up and with a client whose name is not looked up again: the
  -- goal of `setGoal` is sent once, and its time noted, exactly if `setGoal` gives one and the
  -- server is ready; else nothing is sent and `onFailure` answers, or what `setGoal` threw goes on.
  pub tick_first :
      (client : ℕ) (s : State G R)
      → e.rclcpp_ok ≡ true
      → s.status ≡ idle
      → s.client_instance ≡ some client
      → s.action_name_should_be_checked ≡ false
      → Started e.set_goal e.server_ready s (tick api e s)
  unfolding tick tick_connected refresh_client dispatch start send_goal checked
  tick_first client s alive first has_client fixed = elim (Outcome-cases e.set_goal) [
    | inl (some goal, p) ↦ rw p (elim (Bool-cases e.server_ready) [
      | inl q ↦ rw q (ground arith)
      | inr q ↦ rw q (ground arith)
    ])
    | inl (none, p) ↦ rw p (ground arith)
    | inr p ↦ ground arith
  ]

  -- A tick of a running node with a client whose goal is not answered, where spinning returns and
  -- brings no answer: it ends by `onFailure(SEND_GOAL_TIMEOUT)`, through `CheckStatus`, if more
  -- than the server's timeout has passed since the goal was sent, and is RUNNING otherwise.
  tick_timeout :
      (client : ℕ) (code : FutureReturnCode) (s t u : State G R)
      → e.rclcpp_ok ≡ true
      → s.status ≡ running
      → s.client_instance ≡ some client
      → s.goal_received ≡ false
      → run_callbacks e.hooks e.spin_some s ≡ (done tt, t)
      → spin_until_future_complete e.hooks t.future_goal_handle e.spin_goal t ≡ (done code, u)
      → code ≢ completed
      → let limit = s.time_goal_sent + api.from_seconds s.server_timeout in
        tick api e s ≡ (
          if ltb limit (now e)
          then checked api e (e.on_failure send_goal_timeout none) u
          else (done running, u))
  unfolding tick tick_connected refresh_client dispatch poll await_goal goal_answered
  tick_timeout client code s t u alive on has_client waits spun waited late =
      let p = run_callbacks-Keeps e.hooks e.spin_some s in
      let q = spin-Keeps e.hooks t.future_goal_handle e.spin_goal t in ground (arith, p, q)

  -- What a tick owes for a result with a code.
  abbrev pub report : ResultCode → WrappedResult R → State G R → Outcome NodeStatus × State G R
  report unknown r t = (done running, t)
  report aborted r t = checked api e (e.on_failure action_aborted (some r)) t
  report canceled r t = checked api e (e.on_failure action_cancelled (some r)) t
  report succeeded r t = checked api e (e.on_result_received r) t

  -- A tick of a running node with a client and an accepted goal, where `spin_some` returns and
  -- `onFeedback` has asked for nothing, reports the result: RUNNING without one, `onFailure` for an
  -- aborted or a cancelled goal, and `onResultReceived` for one that succeeded, each through
  -- `CheckStatus`. The result is the one from before, or one of the accepted goal.
  pub tick_reports_result :
      (client id : ℕ) (s t : State G R)
      → e.rclcpp_ok ≡ true
      → s.status ≡ running
      → s.client_instance ≡ some client
      → s.goal_received ≡ true
      → s.goal_handle ≡ some id
      → run_callbacks e.hooks e.spin_some s ≡ (done tt, t)
      → t.on_feedback_state_change ≡ running
      → (tick api e s ≡ report t.result.code t.result t)
        × ((t.result ≡ s.result) ⊎ (t.result.goal_id ≡ id))
  unfolding tick tick_connected refresh_client dispatch poll after_goal answer_feedback
      answer_result
  tick_reports_result client id s t alive on has_client received accepted spun calm = (
    ground (arith, run_callbacks-Keeps e.hooks e.spin_some s),
    ground (arith, run_callbacks-result e.hooks e.spin_some s),
  )

  -- A tick of a running node with a client and an accepted goal, where `spin_some` returns and
  -- leaves a status other than RUNNING from `onFeedback`, and `cancelGoal` returns: the goal is
  -- cancelled, and the tick returns the status that the last feedback callback left, those that ran
  -- while the goal was being cancelled included.
  pub tick_feedback_stops :
      (client id : ℕ) (s t u : State G R)
      → e.rclcpp_ok ≡ true
      → s.status ≡ running
      → s.client_instance ≡ some client
      → s.goal_received ≡ true
      → s.goal_handle ≡ some id
      → run_callbacks e.hooks e.spin_some s ≡ (done tt, t)
      → t.on_feedback_state_change ≢ running
      → cancel_goal e t ≡ (done tt, u)
      → (tick api e s ≡ (done u.on_feedback_state_change, u))
        × (cancelled u.calls ≡ id ∷ cancelled s.calls)
  unfolding tick tick_connected refresh_client dispatch poll after_goal answer_feedback
  tick_feedback_stops client id s t u alive on has_client received accepted spun stop stopped =
      let p = run_callbacks-Keeps e.hooks e.spin_some s in
      (ground (arith, p), ground (arith, p, cancel_goal-Cancels e id client t u))
