-- ===== src/ActionNode/Runs/Deadline/Tests.antt =====
-- A goal whose answer is asked after twice.
use behavior_tree_ros.ActionNode.{Env, now}
use behavior_tree_ros.ActionNode.Runs.Deadline.{StaysAsked, goal_answered_by_deadline}
use behavior_tree_ros.ActionNode.Tests.{env, connected}
use behavior_tree_ros.Ros.Tests.{api, api-IsDocumented}
use behavior_tree_ros.Prelude.{ℕ, ◌≤◌, ◌∷◌, [], refl}
use behavior_tree_ros.ActionNode.Tick.{
  tick, refresh_client, tick_connected, with_client, dispatch, start, send_goal, poll, await_goal,
  goal_answered,
}
use behavior_tree_ros.ActionNode.Cancel.{run_callbacks, spin_until_future_complete}
use behavior_tree_ros.Ros.{NodeStatus}

abbrev later : Env ℕ NodeStatus ℕ
later = record env { clock = record { node_time = 5000000; ros_time = 40 } }

two_ticks : StaysAsked api (env ∷ later ∷ []) connected
unfolding StaysAsked tick refresh_client tick_connected with_client dispatch start send_goal now
    poll await_goal goal_answered run_callbacks spin_until_future_complete
two_ticks = (refl, refl, (refl, refl, tt))

goal_answered_by_deadline_example : (5000000 ≤ 10000100) × Unit {0}
unfolding now tick refresh_client tick_connected with_client dispatch start send_goal
goal_answered_by_deadline_example =
    goal_answered_by_deadline api env (later ∷ []) connected api-IsDocumented (λ h. cc) refl
      two_ticks
