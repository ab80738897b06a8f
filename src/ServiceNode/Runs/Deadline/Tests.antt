-- ===== src/ServiceNode/Runs/Deadline/Tests.antt =====
-- A request that is asked after twice.
use behavior_tree_ros.ServiceNode.{Env, now}
use behavior_tree_ros.ServiceNode.Runs.Deadline.{StaysRunning, answered_by_deadline}
use behavior_tree_ros.ServiceNode.Tests.{env, connected}
use behavior_tree_ros.Ros.Tests.{api, api-IsDocumented}
use behavior_tree_ros.Prelude.{Bool, ◌≤◌, ◌∷◌, [], refl}
use behavior_tree_ros.ServiceNode.Tick.{
  tick, refresh_client, with_client, dispatch, start, send_request, poll, await_response,
  spin_until_future_complete, response_answered,
}

abbrev later : Env Bool Bool
later = record env { clock = record { node_time = 5000000; ros_time = 40 } }

two_ticks : StaysRunning api (env ∷ later ∷ []) connected
unfolding StaysRunning tick refresh_client with_client dispatch start send_request now poll
    await_response spin_until_future_complete response_answered
two_ticks = (refl, (refl, tt))

answered_by_deadline_example : (5000000 ≤ 10000100) × Unit {0}
unfolding now tick refresh_client with_client dispatch start send_request
answered_by_deadline_example =
    answered_by_deadline api env (later ∷ []) connected api-IsDocumented (λ h. cc) refl two_ticks
