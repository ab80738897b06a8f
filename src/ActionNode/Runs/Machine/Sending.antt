-- ===== src/ActionNode/Runs/Machine/Sending.antt =====
-- What the first tick of a RosActionNode sends.
use behavior_tree_ros.ActionNode.{State, Env, no_result, server_unreachable, invalid_goal}
use behavior_tree_ros.ActionNode.Cancel.Handles.{sent}
use behavior_tree_ros.ActionNode.Tick.{
  checked, check_status, start, send_goal, refresh_client, tick_connected, tick, dispatch,
  with_client,
}
use behavior_tree_ros.Prelude.{
  Option, ℕ, ◌∷◌, ◌⊎◌, some, false, true, arith, ◌≢◌, Bool-cases, inl, ap, inr, none, refl, String,
  get_or, Option-cases, ◌∙◌, subst, Bool, sym, if◌then◌else◌, ◌≡◌,
}
use behavior_tree_ros.Ros.{Api, is_running, NodeStatus, IsDocumented, running, idle, failure}
use behavior_tree_ros.Program.{Outcome, done, throws, faults, continue, ◌>>◌, pure, Program}
use behavior_tree_ros.ActionNode.Runs.{IsSound}
use behavior_tree_ros.ActionNode.Cancel.{halt}
use behavior_tree_ros.ActionNode.Runs.Safety.{is_running-cases, refresh_client-status}
use behavior_tree_ros.ActionNode.Client.{create_client}

module _ {G F R : Type 0} (api : Api) (e : Env G F R) where
  -- What a first tick leaves, by the status that it returns.
  abbrev pub Sends : State G R → Outcome NodeStatus × State G R → Type 0
  Sends s (done v, t) =
      ((g : G) × (v ≡ running) × (sent t.calls ≡ g ∷ sent s.calls) × (t.goal_received ≡ false))
      ⊎ ((is_running v ≡ false) × (sent t.calls ≡ sent s.calls))
  Sends s (throws x, t) = Unit {0}
  Sends s (faults u, t) = Unit {0}

  answered-Sends :
      (r : Outcome NodeStatus) (s t : State G R)
      → r ≢ done running
      → sent t.calls ≡ sent s.calls
      → Sends s (r, t)
  answered-Sends (done v) s t other same = elim (is_running-cases v) [
    | inl p ↦ absurd (other (ap done p))
    | inr p ↦ inr (p, same)
  ]
  answered-Sends (throws x) s t other same = tt
  answered-Sends (faults u) s t other same = tt

  checked-Sends :
      (r : Outcome NodeStatus) (s t : State G R)
      → IsDocumented api
      → sent t.calls ≡ sent s.calls
      → Sends s (checked api e r t)
  unfolding checked check_status
  checked-Sends (done v) s t d same = elim (Bool-cases (api.is_status_completed v)) [
    | inl p ↦ rw p (inr (ground (arith, d.completed v, p), same))
    | inr p ↦ rw p tt
  ]
  checked-Sends (throws x) s t d same = tt
  checked-Sends (faults u) s t d same = tt

  send_goal-Sends :
      (r : Outcome (Option G)) (s t : State G R)
      → IsDocumented api
      → IsSound e
      → sent t.calls ≡ sent s.calls
      → t.goal_received ≡ false
      → Sends s (continue (r, t) (send_goal api e))
  unfolding send_goal
  send_goal-Sends (done (some g)) s t d sound same fresh = elim (Bool-cases e.server_ready) [
    | inl q ↦ rw q (inl (g, refl, ap (λ gs. g ∷ gs) same, fresh))
    | inr q ↦ rw q (answered-Sends (e.on_failure server_unreachable none) s t sound same)
  ]
  send_goal-Sends (done none) s t d sound same fresh =
      checked-Sends (e.on_failure invalid_goal none) s t d same
  send_goal-Sends (throws x) s t d sound same fresh = tt
  send_goal-Sends (faults u) s t d sound same fresh = tt

  start-Sends :
      (r s : State G R)
      → IsDocumented api
      → IsSound e
      → sent s.calls ≡ sent r.calls
      → Sends r (start api e s)
  unfolding start
  start-Sends r s d sound same =
      send_goal-Sends e.set_goal r
        (record s {
          node = record (s.node) {
            status = running;
            goal_received = false;
            future_goal_handle = false;
            on_feedback_state_change = running;
            result = no_result;
          };
        })
        d sound same refl

  create_client-sent :
      (name : String) (s : State G R) → sent (create_client e name s).1.calls ≡ sent s.calls
  unfolding create_client
  create_client-sent name s = elim (Option-cases e.ros_node) [
    | inl gone ↦ ground arith
    | inr (full, alive) ↦ ground arith
  ]

  pub refresh_client-sent : (s : State G R) → sent (refresh_client api e s).1.calls ≡ sent s.calls
  unfolding refresh_client
  refresh_client-sent s = ground (arith, create_client-sent (get_or e.action_name_input "") s)

  dispatch-Sends :
      (v : NodeStatus) (s t : State G R)
      → IsDocumented api
      → IsSound e
      → v ≡ idle
      → sent t.calls ≡ sent s.calls
      → Sends s (dispatch api e v t)
  unfolding dispatch
  dispatch-Sends idle s t d sound first same = start-Sends s t d sound same
  dispatch-Sends running s t d sound first same = cc
  dispatch-Sends _ s t d sound first same = cc

  with_client-Sends :
      (client : Option ℕ) (s t : State G R)
      → IsDocumented api
      → IsSound e
      → t.status ≡ idle
      → sent t.calls ≡ sent s.calls
      → Sends s (with_client api e client t)
  unfolding with_client
  with_client-Sends none s t d sound first same = tt
  with_client-Sends (some client) s t d sound first same =
      dispatch-Sends t.status s t d sound first same

  connected-Sends :
      (r : Outcome (Unit {0}) × State G R) (s : State G R)
      → IsDocumented api
      → IsSound e
      → r.1.status ≡ idle
      → sent r.1.calls ≡ sent s.calls
      → Sends s (continue r (λ _. tick_connected api e))
  unfolding tick_connected
  connected-Sends (throws x, t) s d sound first same = tt
  connected-Sends (faults u, t) s d sound first same = tt
  connected-Sends (done u, t) s d sound first same =
      with_client-Sends t.client_instance s t d sound first same

  halted-Sends : (s : State G R) → s.status ≡ idle → Sends s ((halt e >> pure failure) s)
  unfolding halt
  halted-Sends s first =
      let same : (halt e >> pure failure) s ≡ (done failure, s) = ground (arith, first) in
      subst (Sends s) (sym same) (inr (refl, refl))

  either-Sends :
      (b : Bool) (m n : Program (State G R) NodeStatus) (s : State G R)
      → Sends s (m s)
      → Sends s (n s)
      → Sends s ((if b then m else n) s)
  either-Sends true m n s first second = first
  either-Sends false m n s first second = second

  pub tick-Sends :
      (s : State G R) → IsDocumented api → IsSound e → s.status ≡ idle → Sends s (tick api e s)
  unfolding tick
  tick-Sends s d sound first =
      either-Sends e.rclcpp_ok (refresh_client api e >> tick_connected api e)
        (halt e >> pure failure) s
        (connected-Sends (refresh_client api e s) s d sound
          ((refresh_client-status api e s).0 ∙ first) (refresh_client-sent s))
        (halted-Sends s first)
