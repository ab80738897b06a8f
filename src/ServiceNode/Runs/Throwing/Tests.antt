-- ===== src/ServiceNode/Runs/Throwing/Tests.antt =====
-- A node whose first tick threw, and which is ticked again.
use behavior_tree_ros.ServiceNode.{Env, State, construct, use_port, create_client, now}
use behavior_tree_ros.ServiceNode.Tests.{env, params, connected}
use behavior_tree_ros.ServiceNode.Runs.Tests.{built, construct-built, built-status, env-IsBenign}
use behavior_tree_ros.ServiceNode.Runs.Throwing.{
  Reach, here, next, tick_throws, is_unsent, faults_exactly_unsent,
}
use behavior_tree_ros.ServiceNode.Tick.{
  tick, refresh_client, with_client, dispatch, start, send_request,
}
use behavior_tree_ros.Registry.{acquire, must_create, insert_or_assign, create, find}
use behavior_tree_ros.Ros.{NodeStatus}
use behavior_tree_ros.Ros.Tests.{api}
use behavior_tree_ros.Prelude.{Bool, refl, none, ◌≡◌, true}
use behavior_tree_ros.Program.{Outcome, throws, runtime_error, is_fault}
use behavior_tree_ros.ServiceNode.Runs.{can_tick}

abbrev no_request : Env Bool Bool
no_request = record env { set_request = throws (runtime_error "no value") }

abbrev thrown : Outcome NodeStatus × State Bool Bool
thrown = tick api no_request built.1

tick-thrown : tick api no_request built.1 ≡ (throws (runtime_error "no value"), thrown.1)
unfolding construct use_port create_client acquire must_create find insert_or_assign create tick
    refresh_client with_client dispatch start send_request now
tick-thrown = refl

thrown-Reach : Reach api built.1 thrown.1
thrown-Reach =
    next here (
      tick_throws no_request (runtime_error "no value") thrown.1 (rw built-status refl) tick-thrown)

can_thrown : can_tick thrown.1.status ≡ true
unfolding construct use_port create_client acquire must_create find insert_or_assign create tick
    refresh_client with_client dispatch start send_request now
can_thrown = refl

faults_exactly_unsent_example : is_fault (tick api env thrown.1).0 ≡ is_unsent thrown.1
faults_exactly_unsent_example =
    faults_exactly_unsent api env env-IsBenign env none params connected built.1 thrown.1
      construct-built thrown-Reach can_thrown refl refl

thrown-unsent : is_unsent thrown.1 ≡ true
unfolding construct use_port create_client acquire must_create find insert_or_assign create tick
    refresh_client with_client dispatch start send_request now
thrown-unsent = refl
