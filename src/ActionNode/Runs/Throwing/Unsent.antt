-- ===== src/ActionNode/Runs/Throwing/Unsent.antt =====
-- The one reason for which a further tick of a RosActionNode has undefined behaviour.
use behavior_tree_ros.ActionNode.{Env, State, now}
use behavior_tree_ros.ActionNode.Tick.{
  tick, tick_connected, refresh_client, dispatch, poll, await_goal,
}
use behavior_tree_ros.ActionNode.Cancel.{run_callbacks, spin_until_future_complete}
use behavior_tree_ros.ActionNode.Cancel.Handles.{run_callbacks-Keeps, spin-Keeps}
use behavior_tree_ros.ActionNode.Client.{construct}
use behavior_tree_ros.ActionNode.Runs.{can_tick}
use behavior_tree_ros.ActionNode.Runs.Callbacks.{IsBenign, IsOrderly, spin-safe}
use behavior_tree_ros.ActionNode.Runs.Faults.{
  after_goal-safe, goal_answered-safe, InOrder-Keeps, start-safe, refresh_client-safe,
}
use behavior_tree_ros.ActionNode.Runs.Safety.{
  refresh_client-status, construct_lem, is_running-cases,
}
use behavior_tree_ros.ActionNode.Runs.Throwing.{HasClient, Reach, Reach-HasClient}
use behavior_tree_ros.RosNodeParams.{RosNodeParams}
use behavior_tree_ros.Ros.{Api, idle, is_running}
use behavior_tree_ros.Prelude.{
  Option, String, Bool, ◌≡◌, true, false, is_some, arith, inl, inr, not, ◌&&◌, ltb, ◌+◌,
}
use behavior_tree_ros.Program.{done, is_fault}

-- A node that was started and has not sent its goal.
abbrev pub is_unsent : {G R : Type 0} → State G R → Bool
is_unsent s = is_running s.status && not s.goal_received && not s.future_goal_handle

module _ {G F R : Type 0} (api : Api) (e : Env G F R) (b : IsBenign e) where
  poll-faults :
      (s t : State G R)
      → is_some s.client_instance ≡ true
      → IsOrderly e s
      → run_callbacks e.hooks e.spin_some s ≡ (done tt, t)
      → is_fault (poll api e s).0 ≡ (not s.goal_received && not s.future_goal_handle)
  unfolding poll await_goal spin_until_future_complete
  poll-faults s t has_client o ran =
      let k = run_callbacks-Keeps e.hooks e.spin_some s in
      let t' = (run_callbacks e.hooks e.spin_some s).1 in
      let u = (spin_until_future_complete e.hooks true e.spin_goal t').1 in
      let late = ltb (u.time_goal_sent + api.from_seconds u.server_timeout) (now e) in
      ground (
        arith,
        k,
        ran,
        spin-Keeps e.hooks true e.spin_goal t',
        spin-safe e.hooks b.fed_back e.spin_goal t'
            (InOrder-Keeps api e b s t' e.spin_goal.ran k o.goal_in_order),
        after_goal-safe api e b t' (ground (arith, k))
            (InOrder-Keeps api e b s t' e.spin_accept.ran k o.accept_in_order),
        goal_answered-safe api e b true late u,
        goal_answered-safe api e b false late u,
      )

  tick-faults :
      (s t : State G R)
      → HasClient s
      → can_tick s.status ≡ true
      → IsOrderly e s
      → e.rclcpp_ok ≡ true
      → run_callbacks e.hooks e.spin_some s ≡ (done tt, t)
      → is_fault (tick api e s).0 ≡ is_unsent s
  unfolding tick tick_connected dispatch
  tick-faults s t has can o up ran =
      let c = (refresh_client api e s).1 in
      elim (is_running-cases s.status) [
        | inl on ↦ unfold refresh_client in ground (arith, has on, poll-faults s t (has on) o ran)
        | inr off ↦ ground (
          arith,
          refresh_client-safe api e b s,
          refresh_client-status api e s,
          start-safe api e b c,
        )
      ]

  -- A node that was constructed, and was then ticked, halted and reset in any order, by ticks and
  -- halts that may also throw, while other nodes spin its executor and change the registry: a
  -- further tick while it is IDLE or RUNNING and rclcpp is up has undefined behaviour exactly if
  -- the node is RUNNING without an accepted goal and without a valid future. The callbacks of
  -- `spin_some` return, the derived class and rclcpp have no undefined behaviour, no goal is
  -- rejected while `cancelGoal` waits, and results come in only where a handle is held.
  pub action_faults_exactly :
      (made : Env G F R) (port : Option String) (p : RosNodeParams) (s t u v : State G R)
      → construct api made port p s ≡ (done tt, t)
      → Reach F api t u
      → can_tick u.status ≡ true
      → IsOrderly e u
      → e.rclcpp_ok ≡ true
      → run_callbacks e.hooks e.spin_some u ≡ (done tt, v)
      → is_fault (tick api e u).0 ≡ is_unsent u
  action_faults_exactly made port p s t u v built r can o up ran =
      let rest : t.status ≡ idle = ground (arith, built, construct_lem api made port p s) in
      let has = Reach-HasClient api r (λ on. ground (arith, rest, on)) in
      tick-faults u v has can o up ran
