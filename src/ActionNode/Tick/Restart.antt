-- ===== src/ActionNode/Tick/Restart.antt =====
-- A RosActionNode that is started again after an earlier goal: `goal_handle_` still holds the earlier
-- goal's handle until the server has answered the new request.
use behavior_tree_ros.Prelude.{List, ◌≡◌, ◌⊎◌, some, ℕ, inl, true, ◌∷◌, arith, false, [], refl}
use behavior_tree_ros.Ros.{Api, idle, running}
use behavior_tree_ros.Program.{done, Exception, throws, faults, invalid_future}
use behavior_tree_ros.ActionNode.{
  Hooks, Env, Callback, State, feedback_callback, result_callback, goal_response_callback,
}
use behavior_tree_ros.ActionNode.Cancel.{
  run_callback, on_feedback_message, on_result_message, halt, run_callbacks,
  spin_until_future_complete,
}
use behavior_tree_ros.ActionNode.Tick.{
  tick, tick_connected, refresh_client, dispatch, start, send_goal, poll, await_goal,
}
use behavior_tree_ros.ActionNode.Cancel.Handles.{run_callback-Keeps, sent, cancelled, halt-Cancels}

module _ {G F R : Type 0} (api : Api) (first second : Env G F R) where
  -- An idle node with a client whose name is not looked up again, which kept the handle of an
  -- earlier goal, is ticked while rclcpp is up, so that a new goal is sent, and is halted before
  -- the server answers: where the request for the result of the earlier goal returns, the goal that
  -- is cancelled is the earlier one, and the new request stays open and is not cancelled.
  pub restart_halt_cancels_earlier :
      (earlier client : ℕ) (goal : G) (s : State G R)
      → first.rclcpp_ok ≡ true
      → s.status ≡ idle
      → s.client_instance ≡ some client
      → s.action_name_should_be_checked ≡ false
      → s.goal_handle ≡ some earlier
      → first.set_goal ≡ done (some goal)
      → first.server_ready ≡ true
      → second.get_result_request ≡ done tt
      → let t = (tick api first s).1 in
        let u = (halt second t).1 in
        (sent u.calls ≡ goal ∷ sent s.calls)
        × (cancelled u.calls ≡ earlier ∷ cancelled s.calls)
        × (u.future_goal_handle ≡ true)
        × (u.goal_handle ≡ some earlier)
  unfolding tick tick_connected refresh_client dispatch start send_goal
  restart_halt_cancels_earlier earlier client goal s alive first_tick has_client fixed kept wanted
        ready asked =
      ground (arith, halt-Cancels second earlier client (tick api first s).1)

  -- The first tick of an idle node with a client whose name is not looked up again, while rclcpp is
  -- up, in which `setGoal` throws: the exception goes on and the node stays RUNNING without a
  -- request, so a further tick in which no callbacks run waits on an invalid future.
  failed_start_spoils_tick :
      (x : Exception) (client : ℕ) (s : State G R)
      → first.rclcpp_ok ≡ true
      → s.status ≡ idle
      → s.client_instance ≡ some client
      → s.action_name_should_be_checked ≡ false
      → first.set_goal ≡ throws x
      → second.rclcpp_ok ≡ true
      → second.spin_some ≡ []
      → let (o, t) = tick api first s in
        (o ≡ throws x) × (t.status ≡ running) × ((tick api second t).0 ≡ faults invalid_future)
  unfolding tick tick_connected refresh_client dispatch start poll await_goal
      spin_until_future_complete run_callbacks
  failed_start_spoils_tick x client s alive first_tick has_client fixed thrown alive' quiet =
      ground (arith, quiet)

module _ {G F R : Type 0} (h : Hooks G F R) where
  run_callback-result :
      (c : Callback F R) (s : State G R)
      → let t = (run_callback h c s).1 in
        (t.result ≡ s.result) ⊎ (s.goal_handle ≡ some t.result.goal_id)
  unfolding run_callback on_feedback_message on_result_message
  run_callback-result (feedback_callback f) s = ground arith
  run_callback-result (result_callback r) s = ground arith
  run_callback-result (goal_response_callback o) s = inl refl

  -- However many callbacks an executor runs, the result that is stored afterwards is the one from
  -- before or belongs to the goal whose handle the node holds: results of other goals are dropped.
  pub run_callbacks-result :
      (cs : List (Callback F R)) (s : State G R)
      → let t = (run_callbacks h cs s).1 in
        (t.result ≡ s.result) ⊎ (s.goal_handle ≡ some t.result.goal_id)
  unfolding run_callbacks
  run_callbacks-result [] s = inl refl
  run_callbacks-result (c ∷ cs) s =
      let t = (run_callback h c s).1 in
      ground (arith, run_callback-result c s, run_callback-Keeps h c s, run_callbacks-result cs t)
