-- ===== src/ActionNode/Runs/Faults.antt =====
-- When `tick` and `halt` have undefined behaviour, and when they have none.
use behavior_tree_ros.ActionNode.Tick.{
  accept_reply, checked, check_status, answer_feedback, await_goal, send_goal, tick_connected,
  dispatch, answer_result, after_goal, goal_answered, poll, start, refresh_client, tick,
}
use behavior_tree_ros.Prelude.{
  List, Bool, is_some, true, ◌≡◌, Option, arith, some, Option-cases, false, inr, inl, refl, none,
  String, get_or, ltb, ◌+◌,
}
use behavior_tree_ros.ActionNode.{
  Env, Callback, WrappedResult, ResultCode, action_aborted, goal_rejected_by_server,
  action_cancelled, send_goal_timeout, server_unreachable, unknown, no_result, aborted, now,
  invalid_goal, canceled, succeeded, State,
}
use behavior_tree_ros.Program.{NeverFaults, Outcome, Outcome-cases, done}
use behavior_tree_ros.ActionNode.Cancel.{run_callbacks, spin_until_future_complete, halt}
use behavior_tree_ros.ActionNode.Cancel.Handles.{Keeps, spin-Keeps, run_callbacks-Keeps}
use behavior_tree_ros.Ros.{Api, NodeStatus, idle, running, IsDocumented}
use behavior_tree_ros.ActionNode.Client.{create_client, construct}
use behavior_tree_ros.ActionNode.Runs.{can_tick, IsReady, Reach}
use behavior_tree_ros.ActionNode.Tick.Live.{IsLive}
use behavior_tree_ros.ActionNode.Runs.Safety.{
  is_running-cases, Reach-IsReady, refresh_client-status,
}
use behavior_tree_ros.ActionNode.Runs.Callbacks.{
  IsBenign, InOrder, IsOrderly, cancel_goal-safe, run_callbacks-safe, spin-safe,
}
use behavior_tree_ros.RosNodeParams.{RosNodeParams}

module _ {G F R : Type 0} (api : Api) (e : Env G F R) (b : IsBenign e) where
  checked-safe :
      (o : Outcome NodeStatus) (s : State G R) → NeverFaults o → NeverFaults (checked api e o s).0
  unfolding checked check_status
  checked-safe o s h = ground arith

  answer_result-safe :
      (c : ResultCode) (r : WrappedResult R) (s : State G R)
      → NeverFaults (answer_result api e c r s).0
  unfolding answer_result
  answer_result-safe unknown r s = refl
  answer_result-safe aborted r s = checked-safe _ s (b.failed action_aborted (some r))
  answer_result-safe canceled r s = checked-safe _ s (b.failed action_cancelled (some r))
  answer_result-safe succeeded r s = checked-safe _ s (b.result_received r)

  pub after_goal-safe :
      (s : State G R)
      → is_some s.client_instance ≡ true
      → InOrder s e.spin_accept.ran
      → NeverFaults (after_goal api e s).0
  unfolding after_goal answer_feedback
  after_goal-safe s has_client o =
      ground
        (arith, answer_result-safe s.result.code s.result s, cancel_goal-safe e b s has_client o)

  abbrev with_reply : State G R → State G R
  with_reply u = record u {
    node = record (u.node) {
      goal_received = true;
      goal_handle = e.goal_reply;
      future_goal_handle = false;
    };
  }

  pub goal_answered-safe :
      (c late : Bool) (s : State G R)
      → is_some s.client_instance ≡ true
      → NeverFaults (goal_answered api e c late s).0
  unfolding goal_answered accept_reply
  goal_answered-safe c late s has_client = elim (Option-cases e.goal_reply) [
    | inl p ↦ ground (
      arith,
      b.failed_code goal_rejected_by_server,
      b.failed send_goal_timeout none,
      checked-safe (e.on_failure_code goal_rejected_by_server) (with_reply s),
      checked-safe (e.on_failure send_goal_timeout none) s,
    )
    | inr (id, p) ↦ ground (
      arith,
      b.failed send_goal_timeout none,
      checked-safe (e.on_failure send_goal_timeout none) s,
      after_goal-safe (with_reply s) has_client (inl (ground arith)),
    )
  ]

  pub InOrder-Keeps :
      (s t : State G R) (cs : List (Callback F R)) → Keeps s t → InOrder s cs → InOrder t cs
  InOrder-Keeps s t cs k o = ground arith

  poll-safe : (s : State G R) → IsLive s → IsOrderly e s → NeverFaults (poll api e s).0
  unfolding poll await_goal
  poll-safe s live o =
      let t = (run_callbacks e.hooks e.spin_some s).1 in
      let k = run_callbacks-Keeps e.hooks e.spin_some s in
      let u = (spin_until_future_complete e.hooks true e.spin_goal t).1 in
      let late = ltb (u.time_goal_sent + api.from_seconds u.server_timeout) (now e) in
      ground (
        arith,
        k,
        spin-Keeps e.hooks true e.spin_goal t,
        run_callbacks-safe e.hooks b.fed_back e.spin_some s o.some_in_order,
        spin-safe e.hooks b.fed_back e.spin_goal t
            (InOrder-Keeps s t e.spin_goal.ran k o.goal_in_order),
        after_goal-safe t (ground (arith, k))
            (InOrder-Keeps s t e.spin_accept.ran k o.accept_in_order),
        goal_answered-safe true late u,
        goal_answered-safe false late u,
      )

  pub start-safe : (s : State G R) → NeverFaults (start api e s).0
  unfolding start send_goal
  start-safe s = elim (Outcome-cases e.set_goal) [
    | inl (some goal, p) ↦ ground (arith, b.failed server_unreachable none)
    | inl (none, p) ↦
        let t : State G R = record s {
          node = record (s.node) {
            status = running;
            goal_received = false;
            future_goal_handle = false;
            on_feedback_state_change = running;
            result = no_result;
          };
        } in
        ground (arith, checked-safe (e.on_failure invalid_goal none) t (b.failed invalid_goal none))
    | inr p ↦ ground (arith, b.goal_set)
  ]

  create_client-safe : (name : String) (s : State G R) → NeverFaults (create_client e name s).0
  unfolding create_client
  create_client-safe name s = elim (Option-cases e.ros_node) [
    | inl p ↦ ground arith
    | inr (full, p) ↦ ground (arith, b.made)
  ]

  pub refresh_client-safe : (s : State G R) → NeverFaults (refresh_client api e s).0
  unfolding refresh_client
  refresh_client-safe s = ground (arith, create_client-safe (get_or e.action_name_input "") s)

  halt-safe : (s : State G R) → IsReady s → IsOrderly e s → NeverFaults (halt e s).0
  unfolding halt
  halt-safe s ready o = elim (is_running-cases s.status) [
    | inl p ↦
        ground (arith, b.halted, cancel_goal-safe e b s ((ready p).has_client) o.accept_in_order)
    | inr p ↦ ground arith
  ]

  running_tick-safe : (s : State G R) → IsLive s → IsOrderly e s → NeverFaults (tick api e s).0
  unfolding tick tick_connected refresh_client dispatch
  running_tick-safe s live o = ground (arith, poll-safe s live o, halt-safe s (λ on. live) o)

  idle_tick-safe : (s : State G R) → s.status ≡ idle → IsOrderly e s → NeverFaults (tick api e s).0
  unfolding tick tick_connected dispatch
  idle_tick-safe s first o =
      let c = (refresh_client api e s).1 in
      ground (
        arith,
        refresh_client-safe s,
        refresh_client-status api e s,
        start-safe c,
        halt-safe s (λ on. ground arith) o,
      )

  tick_halt_safe :
      (s : State G R)
      → can_tick s.status ≡ true
      → IsReady s
      → IsOrderly e s
      → NeverFaults (tick api e s).0 × NeverFaults (halt e s).0
  tick_halt_safe s can ready o = (
    elim (is_running-cases s.status) [
      | inl p ↦ running_tick-safe s (ready p) o
      | inr p ↦ idle_tick-safe s (ground arith) o
    ],
    halt-safe s ready o,
  )

module _ {G F R : Type 0} (api : Api) (d : IsDocumented api) where
  -- With the documented `isStatusCompleted`: a node that was constructed, and was then ticked while
  -- IDLE or RUNNING, halted and reset in any order, by ticks and halts that return and with an
  -- `onFailure` that never answers RUNNING to SERVER_UNREACHABLE, while other nodes spin its
  -- executor and change the registry, has no undefined behaviour in a further `tick` or `halt`
  -- while it is IDLE or RUNNING, where it is given results only of goals whose handle it holds, the
  -- derived class and rclcpp have no undefined behaviour, and no goal is rejected during `halt`.
  pub Reach_safe :
      (made e : Env G F R) (port : Option String) (p : RosNodeParams) (s t u : State G R)
      → construct api made port p s ≡ (done tt, t)
      → Reach F api t u
      → can_tick u.status ≡ true
      → IsBenign e
      → IsOrderly e u
      → NeverFaults (tick api e u).0 × NeverFaults (halt e u).0
  Reach_safe made e port p s t u built r can b o =
      tick_halt_safe api e b u can (Reach-IsReady api made port p s t u d built r) o
