-- ===== src/TreeExecutionServer/ActionTree/Results.antt =====
-- The result of the action, as the client of the server gets it.
use mathlib.Core.List.{head?}
use behavior_tree_ros.ActionNode.{
  Env, State, WrappedResult, ResultCode, action_aborted, action_cancelled, unknown, aborted,
  canceled, succeeded,
}
use behavior_tree_ros.ActionNode.Tick.{tick, checked, check_status}
use behavior_tree_ros.ActionNode.Tick.Phases.{tick_reports_result, report}
use behavior_tree_ros.ActionNode.Tick.Live.{IsLive}
use behavior_tree_ros.ActionNode.Cancel.{run_callbacks}
use behavior_tree_ros.TreeExecutionServer.ActionTree.{
  Turn, rounds_of, leaf_after, leaf_after_lem, AllSound, verdict-skips,
}
use behavior_tree_ros.TreeExecutionServer.Execute.{ExecuteEnv, Round, execute, returned}
use behavior_tree_ros.TreeExecutionServer.Execute.Progress.{all_go_on}
use behavior_tree_ros.TreeExecutionServer.Execute.Report.{
  Answers, verdict, left, execute_reports, closing, result,
}
use behavior_tree_ros.TreeExecutionServer.{Goal, Server, Event, goal_succeeded, goal_aborted}
use behavior_tree_ros.Ros.{
  Api, IsDocumented, NodeStatus, idle, running, success, failure, is_success, is_running,
}
use behavior_tree_ros.Prelude.{
  List, Option, String, Bool, ℕ, ◌∷◌, ◌++◌, ◌≡◌, ◌⊎◌, true, false, some, none, arith, ap, get_or,
  ◌∙◌, ◌<>◌, if◌then◌else◌, Option-cases, inl, inr,
}
use behavior_tree_ros.Program.{Outcome, done}

-- What the derived class answers to a result.
abbrev pub reply : {G F R : Type 0} → Env G F R → ResultCode → WrappedResult R → Outcome NodeStatus
reply e unknown r = done running
reply e aborted r = e.on_failure action_aborted (some r)
reply e canceled r = e.on_failure action_cancelled (some r)
reply e succeeded r = e.on_result_received r

-- A round of which nothing but the tick decides.
pub record IsQuiet (r : Round) : Type 0 where
  pub up : r.rclcpp_ok ≡ true
  pub wanted : r.is_canceling ≡ false
  pub hook : (v : NodeStatus) → r.on_loop_after_tick v ≡ done none
  pub feedback : r.on_loop_feedback ≡ done none

verdict-left :
    (after : List Round) (r : Round) (v : NodeStatus)
    → IsQuiet r
    → is_running v ≡ false
    → verdict (record r { tick_once = done v } ∷ after) ≡ left v
unfolding verdict
verdict-left after r v q off = ground (arith, q.up, q.wanted, q.hook v, q.feedback)

module _ {G F R : Type 0} (api : Api) (e : Env G F R) where
  report_lem :
      (c : ResultCode) (r : WrappedResult R) (t : State G R) (v : NodeStatus)
      → IsDocumented api
      → reply e c r ≡ done v
      → api.is_status_completed v ≡ true
      → (report api e c r t).0 ≡ done v
  unfolding checked check_status
  report_lem ResultCode.unknown r t v d answered ends = answered
  report_lem ResultCode.aborted r t v d answered ends = ground (arith, answered, ends)
  report_lem ResultCode.canceled r t v d answered ends = ground (arith, answered, ends)
  report_lem ResultCode.succeeded r t v d answered ends = ground (arith, answered, ends)

  -- A tick of a live node that takes the result.
  live_result :
      (id : ℕ) (u t : State G R) (v : NodeStatus)
      → IsDocumented api
      → e.rclcpp_ok ≡ true
      → IsLive u
      → u.goal_received ≡ true
      → u.goal_handle ≡ some id
      → run_callbacks e.hooks e.spin_some u ≡ (done tt, t)
      → t.on_feedback_state_change ≡ running
      → reply e t.result.code t.result ≡ done v
      → api.is_status_completed v ≡ true
      → (tick api e u).0 ≡ done v
  live_result id u t v d alive live received known spun calm answered ends =
      elim (Option-cases u.client_instance) [
        | inl missing ↦ absurd (ground (arith, live.has_client, missing))
        | inr (client, held) ↦
            ap (λ r. r.0)
              (tick_reports_result api e client id u t alive live.on held received known spun
                calm).0
            ∙ report_lem t.result.code t.result t v d answered ends
      ]

-- How the server ends the goal for a tree that ended with this status.
abbrev pub ended_with : ExecuteEnv → (NodeStatus → Bool → Option String) → NodeStatus → Event
ended_with e texts v =
    (if is_success v then goal_succeeded else goal_aborted)
      (result v (get_or (texts v false) ("Tree finished with status: " <> e.to_str v)))

module _ {G F R : Type 0} (api : Api) (e : ExecuteEnv) (texts : NodeStatus → Bool → Option String)
    (a : Answers e texts) where
  -- The action server with a tree that is one RosActionNode, idle when the run starts, where
  -- `isStatusCompleted` is as documented and `onFailure` does not answer RUNNING to
  -- SERVER_UNREACHABLE. After one tick or more that go on, the node has an accepted goal and is
  -- ticked once more; `spin_some` returns, `onFeedback` has asked for nothing, and the derived
  -- class answers SUCCESS or FAILURE to the result that is then stored: `onResultReceived` to one
  -- that succeeded, `onFailure` to one that was aborted or canceled. Parameters are not old, the
  -- tree can be made and halted, that round is not canceled and its callbacks ask for nothing, and
  -- those of the server's derived class return. Then the run ends by that tick: the server's goal
  -- is succeeded exactly if the answer was SUCCESS, and aborted otherwise, with that status in its
  -- result.
  pub result_reaches_client :
      (goal : Goal) (server : Server) (first : Turn G F R) (ts : List (Turn G F R))
      (last : Turn G F R) (after : List Round) (s t : State G R) (id : ℕ) (v : NodeStatus)
      → IsDocumented api
      → AllSound api (first ∷ ts)
      → s.status ≡ idle
      → e.is_old ≡ false
      → e.create_tree ≡ done tt
      → e.on_tree_created ≡ done tt
      → e.make_groot_publisher ≡ done tt
      → let u = leaf_after api (first ∷ ts) s in
        e.rounds
          ≡ rounds_of api (first ∷ ts) s
            ++ (record (last.round) { tick_once = (tick api last.env u).0 } ∷ after)
        → all_go_on (rounds_of api (first ∷ ts) s) ≡ true
        → IsQuiet last.round
        → last.env.rclcpp_ok ≡ true
        → (leaf_after api (first ∷ ts) s).goal_received ≡ true
        → (leaf_after api (first ∷ ts) s).goal_handle ≡ some id
        → run_callbacks last.env.hooks last.env.spin_some (leaf_after api (first ∷ ts) s)
          ≡ (done tt, t)
        → t.on_feedback_state_change ≡ running
        → reply last.env t.result.code t.result ≡ done v
        → (v ≡ success) ⊎ (v ≡ failure)
        → let (o, w) = execute e goal server in
          (o ≡ done returned) × (head? w.events ≡ some (ended_with e texts v))
  unfolding closing
  result_reaches_client goal server first ts last after s t id v d sound rest fresh made told shown
        same on quiet alive received known spun calm answered either =
      let u = leaf_after api (first ∷ ts) s in
      let leaf = leaf_after_lem api first ts s d sound rest on in
      let ticked =
        live_result api last.env id u t v d alive leaf.0 received known spun calm answered
          ((d.completed v).1 either) in
      let final = λ (o : Outcome NodeStatus). record (last.round) { tick_once = o } ∷ after in
      let found =
        verdict-skips (rounds_of api (first ∷ ts) s) (final (tick api last.env u).0) on
        ∙ ap (λ o. verdict (final o)) ticked
        ∙ verdict-left after last.round v quiet (ground (arith, either)) in
      execute_reports e texts a goal server (ended_with e texts v) fresh made told shown
        (ap (closing e texts) (ap verdict same ∙ found))
