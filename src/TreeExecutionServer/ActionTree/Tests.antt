-- ===== src/TreeExecutionServer/ActionTree/Tests.antt =====
-- A goal whose action has been accepted, and which is then canceled.
use mathlib.Core.List.{head?}
use behavior_tree_ros.ActionNode.{State, now, ResultCode, result_callback}
use behavior_tree_ros.ActionNode.Tick.{
  tick, refresh_client, tick_connected, with_client, dispatch, start, send_goal, poll, await_goal,
  goal_answered, accept_reply, after_goal, answer_feedback, answer_result,
}
use behavior_tree_ros.ActionNode.Tests.{env as action_env, connected, answered}
use behavior_tree_ros.ActionNode.Cancel.{
  halt, run_callbacks, spin_until_future_complete, cancel_goal, cancel_handle, run_callback,
  on_result_message,
}
use behavior_tree_ros.ActionNode.Cancel.Handles.{sent, cancelled}
use behavior_tree_ros.TreeExecutionServer.ActionTree.{
  Turn, rounds_of, leaf_after, cancel_reaches_action,
}
use behavior_tree_ros.TreeExecutionServer.ActionTree.Results.{
  IsQuiet, reply, ended_with, result_reaches_client,
}
use behavior_tree_ros.Ros.{success, NodeStatus, running}
use behavior_tree_ros.Prelude.{inl, ℕ, List, ◌∷◌, [], ◌++◌, ◌≡◌, some, true, refl}
use behavior_tree_ros.TreeExecutionServer.Tests.{env, params, goal, tick_round, no_text}
use behavior_tree_ros.TreeExecutionServer.Execute.{ExecuteEnv, Round, execute, returned}
use behavior_tree_ros.TreeExecutionServer.Execute.Progress.{all_go_on}
use behavior_tree_ros.TreeExecutionServer.Execute.Report.{Answers, result}
use behavior_tree_ros.TreeExecutionServer.{members, goal_canceled}
use behavior_tree_ros.Ros.Tests.{api, api-IsDocumented}
use behavior_tree_ros.Program.{done}

abbrev asks : Turn ℕ NodeStatus ℕ
asks = record { env = action_env; round = tick_round running }

-- The second tick brings the server's answer.
abbrev answers : Turn ℕ NodeStatus ℕ
answers = record { env = record action_env { spin_goal = answered }; round = tick_round running }

abbrev stop : Round
stop = record (tick_round running) { is_canceling = true }

abbrev turns : List (Turn ℕ NodeStatus ℕ)
turns = asks ∷ answers ∷ []

abbrev canceled_run : ExecuteEnv
canceled_run = record env { rounds = rounds_of api turns connected ++ (stop ∷ []) }

abbrev leaf : State ℕ ℕ
leaf = leaf_after api turns connected

canceled_run-Answers : Answers canceled_run no_text
canceled_run-Answers = record { halts = refl; tells = λ v b. refl }

turns_go_on : all_go_on (rounds_of api turns connected) ≡ true
unfolding rounds_of tick refresh_client tick_connected with_client dispatch start send_goal now poll
    await_goal goal_answered accept_reply after_goal answer_feedback answer_result run_callbacks
    spin_until_future_complete
turns_go_on = refl

leaf_known : leaf.goal_handle ≡ some 3
unfolding leaf_after tick refresh_client tick_connected with_client dispatch start send_goal now
    poll await_goal goal_answered accept_reply after_goal answer_feedback answer_result
    run_callbacks spin_until_future_complete
leaf_known = refl

leaf_halts : done tt ≡ (halt action_env leaf).0
unfolding leaf_after tick refresh_client tick_connected with_client dispatch start send_goal now
    poll await_goal goal_answered accept_reply after_goal answer_feedback answer_result
    run_callbacks spin_until_future_complete halt cancel_goal cancel_handle
leaf_halts = refl

cancel_reaches_action_example :
    let v = (halt action_env leaf).1 in
    let (o, t) = execute canceled_run goal (members params) in
    (o ≡ done returned)
    × (head? t.events
        ≡ some (goal_canceled (result running "Action Server canceling and halting Behavior Tree")))
    × ((g : ℕ) × (sent v.calls ≡ g ∷ []))
    × (cancelled v.calls ≡ 3 ∷ cancelled leaf.calls)
cancel_reaches_action_example =
    cancel_reaches_action api canceled_run no_text canceled_run-Answers goal (members params) asks
      (answers ∷ []) stop [] action_env connected 3 api-IsDocumented ((λ h. cc), ((λ h. cc), tt))
      refl refl refl refl refl refl turns_go_on refl refl leaf_halts leaf_known

-- The third tick brings the result.
abbrev gets_result : Turn ℕ NodeStatus ℕ
gets_result = record {
  env = record action_env {
    spin_some =
        result_callback (record { goal_id = 3; code = ResultCode.succeeded; result = some 9 }) ∷ [];
  };
  round = tick_round running;
}

abbrev result_run : ExecuteEnv
result_run = record env {
  rounds =
      rounds_of api turns connected
      ++ (record (gets_result.round) { tick_once = (tick api gets_result.env leaf).0 } ∷ []);
}

result_run-Answers : Answers result_run no_text
result_run-Answers = record { halts = refl; tells = λ v b. refl }

gets_result-IsQuiet : IsQuiet gets_result.round
gets_result-IsQuiet = record { up = refl; wanted = refl; hook = λ v. refl; feedback = refl }

abbrev told : State ℕ ℕ
told = (run_callbacks gets_result.env.hooks gets_result.env.spin_some leaf).1

leaf_received :
    (leaf.goal_received ≡ true)
    × (run_callbacks gets_result.env.hooks gets_result.env.spin_some leaf ≡ (done tt, told))
    × (told.on_feedback_state_change ≡ running)
    × (reply gets_result.env told.result.code told.result ≡ done success)
unfolding leaf_after tick refresh_client tick_connected with_client dispatch start send_goal now
    poll await_goal goal_answered accept_reply after_goal answer_feedback answer_result
    run_callbacks spin_until_future_complete run_callback on_result_message
leaf_received = (refl, refl, refl, refl)

result_reaches_client_example :
    let (o, w) = execute result_run goal (members params) in
    (o ≡ done returned) × (head? w.events ≡ some (ended_with result_run no_text success))
result_reaches_client_example =
    result_reaches_client api result_run no_text result_run-Answers goal (members params) asks
      (answers ∷ []) gets_result [] connected told 3 success api-IsDocumented
      ((λ h. cc), ((λ h. cc), tt)) refl refl refl refl refl refl turns_go_on gets_result-IsQuiet
      refl leaf_received.0 leaf_known leaf_received.1 leaf_received.2 leaf_received.3 (inl refl)
