-- ===== src/Samples/RoundTrip.antt =====
-- SleepAction and the sleep server together.
use behavior_tree_ros.ActionNode.{
  State, Env as NodeEnv, result_callback, emit_wake_up_signal, action_cancelled, Hooks,
  WrappedResult, ResultCode,
}
use behavior_tree_ros.ActionNode.Tick.{tick, checked, check_status}
use mathlib.Core.List.{head?}
use behavior_tree_ros.Prelude.{
  ℕ, Option, Bool, some, none, List, ◌<◌, ◌^◌, ◌≡◌, true, ◌≢◌, ◌∷◌, [], arith, ap, inr, inl, refl,
  ◌∙◌,
}
use behavior_tree_ros.Samples.SleepServer.{
  LoopEnd, Event, goal_succeeded, finished, returned, Env, goal_canceled, unfinished, deadline_of,
  execute, published_feedback, slept,
}
use behavior_tree_ros.Ros.{Api, NodeStatus, IsDocumented, success, failure, running}
use behavior_tree_ros.ActionNode.Cancel.{run_callbacks, run_callback, on_result_message}
use behavior_tree_ros.Samples.SleepAction.{Goal, sleep_hooks}
use behavior_tree_ros.Program.{Outcome, done}
use behavior_tree_ros.Samples.SleepServer.Ending.{cycles, stop, execute-feedbacks}
use behavior_tree_ros.ActionNode.Tick.Phases.{tick_reports_result, report}

abbrev wrapped : ℕ → ResultCode → Bool → WrappedResult Bool
wrapped id c b = record { goal_id = id; code = c; result = some b }

-- The node after its result callback.
abbrev told : ℕ → ResultCode → Bool → State Goal Bool → State Goal Bool
told id c b s = record s {
  node = record (s.node) { result = wrapped id c b };
  calls = emit_wake_up_signal ∷ s.calls;
}

-- What the client gets of an end that the server gives to a goal: rclcpp sends the result with the
-- code of the end.
abbrev pub transported : ℕ → Event → Option (WrappedResult Bool)
transported id (goal_succeeded b) =
    some (record { goal_id = id; code = ResultCode.succeeded; result = some b })
transported id (goal_canceled b) =
    some (record { goal_id = id; code = ResultCode.canceled; result = some b })
transported id _ = none

-- The status that the server's end stands for.
abbrev pub meaning : LoopEnd → NodeStatus
meaning finished = success
meaning returned = failure
meaning unfinished = running

module _ (api : Api) (d : IsDocumented api) where
  -- The client's tick takes the result that came in.
  client_ends :
      (msec : Outcome ℕ) (client id : ℕ) (c : ResultCode) (b : Bool) (e : NodeEnv Goal ℕ Bool)
      (s : State Goal Bool)
      → e.hooks ≡ sleep_hooks msec
      → e.rclcpp_ok ≡ true
      → e.spin_some ≡ result_callback (wrapped id c b) ∷ []
      → s.status ≡ running
      → s.client_instance ≡ some client
      → s.goal_received ≡ true
      → s.goal_handle ≡ some id
      → s.on_feedback_state_change ≡ running
      → tick api e s ≡ report api e c (wrapped id c b) (told id c b s)
  unfolding run_callbacks run_callback on_result_message
  client_ends msec client id c b e s is_sleep ok spun on has_client received handle calm =
      let ran : run_callbacks e.hooks e.spin_some s ≡ (done tt, told id c b s) =
        ground (arith, spun) in
      (tick_reports_result api e client id s (told id c b s) ok on has_client received handle ran
        calm).0

  report_canceled :
      (msec : Outcome ℕ) (r : WrappedResult Bool) (e : NodeEnv Goal ℕ Bool) (t : State Goal Bool)
      → e.hooks ≡ sleep_hooks msec
      → (report api e ResultCode.canceled r t).0 ≡ done failure
  unfolding checked check_status
  report_canceled msec r e t is_sleep =
      let fails : e.on_failure action_cancelled (some r) ≡ done failure =
        ap (λ (h : Hooks Goal ℕ Bool). h.on_failure action_cancelled (some r)) is_sleep in
      rw (fails, (d.completed failure).1 (inr refl)) refl

  report_succeeded :
      (msec : Outcome ℕ) (id : ℕ) (e : NodeEnv Goal ℕ Bool) (t : State Goal Bool)
      → e.hooks ≡ sleep_hooks msec
      → (report api e ResultCode.succeeded (wrapped id ResultCode.succeeded true) t).0
        ≡ done success
  unfolding checked check_status
  report_succeeded msec id e t is_sleep =
      let r = wrapped id ResultCode.succeeded true in
      let answers : e.on_result_received r ≡ done success =
        ap (λ (h : Hooks Goal ℕ Bool). h.on_result_received r) is_sleep in
      rw (answers, (d.completed success).1 (inl refl)) refl

  -- With the documented `isStatusCompleted`, SleepAction ends as the sleep server did: where the
  -- server's run ended and its counter did not overflow, the tick of a live SleepAction with an
  -- accepted goal, in which the result of that end comes in and nothing else, returns SUCCESS
  -- exactly if the server slept to its deadline, and FAILURE if it canceled the goal.
  pub sleep_round_trip :
      (server : Env) (goal : Goal) (msec : Outcome ℕ) (client id : ℕ) (v : Event)
      (r : WrappedResult Bool) (e : NodeEnv Goal ℕ Bool) (events : List Event) (s : State Goal Bool)
      → cycles server.rounds (deadline_of api server.start goal) < 2 ^ 31
      → server.rclcpp_ok ≡ true
      → stop server.rounds (deadline_of api server.start goal) ≢ unfinished
      → head? (execute api server goal events).1 ≡ some v
      → transported id v ≡ some r
      → e.hooks ≡ sleep_hooks msec
      → e.rclcpp_ok ≡ true
      → e.spin_some ≡ result_callback r ∷ []
      → s.status ≡ running
      → s.client_instance ≡ some client
      → s.goal_received ≡ true
      → s.goal_handle ≡ some id
      → s.on_feedback_state_change ≡ running
      → (tick api e s).0 ≡ done (meaning (stop server.rounds (deadline_of api server.start goal)))
  sleep_round_trip server goal msec client id (goal_canceled b) r e events s small up ends last came
        is_sleep ok spun on has_client received handle calm =
      let same : r ≡ wrapped id ResultCode.canceled b = ground (arith, came) in
      let f = execute-feedbacks api server goal events small in
      let ends_so : stop server.rounds (deadline_of api server.start goal) ≡ returned =
        ground (arith, f, up, ends, last) in
      let spun' : e.spin_some ≡ result_callback (wrapped id ResultCode.canceled b) ∷ [] =
        spun ∙ ap (λ x. result_callback x ∷ []) same in
      let ticked =
        client_ends msec client id ResultCode.canceled b e s is_sleep ok spun' on has_client
          received handle calm in
      rw (ends_so, ticked)
        (report_canceled msec (wrapped id ResultCode.canceled b) e (told id ResultCode.canceled b s)
          is_sleep)
  sleep_round_trip server goal msec client id (goal_succeeded b) r e events s small up ends last
        came is_sleep ok spun on has_client received handle calm =
      let f = execute-feedbacks api server goal events small in
      let ends_so : stop server.rounds (deadline_of api server.start goal) ≡ finished =
        ground (arith, f, up, ends, last) in
      let slept_out : b ≡ true = ground (arith, f, up, ends_so, last) in
      let same : r ≡ wrapped id ResultCode.succeeded true = ground (arith, came, slept_out) in
      let spun' : e.spin_some ≡ result_callback (wrapped id ResultCode.succeeded true) ∷ [] =
        spun ∙ ap (λ x. result_callback x ∷ []) same in
      let ticked =
        client_ends msec client id ResultCode.succeeded true e s is_sleep ok spun' on has_client
          received handle calm in
      rw (ends_so, ticked)
        (report_succeeded msec id e (told id ResultCode.succeeded true s) is_sleep)
  sleep_round_trip server goal msec client id slept r e events s small up ends last came is_sleep ok
        spun on has_client received handle calm =
      cc
  sleep_round_trip server goal msec client id (published_feedback c) r e events s small up ends last
        came is_sleep ok spun on has_client received handle calm =
      cc
