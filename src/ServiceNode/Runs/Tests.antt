-- ===== src/ServiceNode/Runs/Tests.antt =====
-- A run of RosServiceNode from its constructor on.
use behavior_tree_ros.Program.{Outcome, NeverFaults, done}
use behavior_tree_ros.ServiceNode.{construct, State, use_port, create_client, now}
use behavior_tree_ros.ServiceNode.Runs.{Reach, set_status, next, here, ticks, IsBenign, IsReady}
use behavior_tree_ros.Ros.{NodeStatus, running, idle}
use behavior_tree_ros.Ros.Tests.{api, api-IsDocumented}
use behavior_tree_ros.ServiceNode.Tests.{env, params, connected}
use behavior_tree_ros.Prelude.{Bool, none, ◌≡◌, refl}
use behavior_tree_ros.Registry.{acquire, must_create, insert_or_assign, create, find}
use behavior_tree_ros.ServiceNode.Tick.{
  tick, refresh_client, with_client, dispatch, start, send_request,
}
use behavior_tree_ros.ServiceNode.Runs.Safety.{life_without_faults}

abbrev pub built : Outcome (Unit {0}) × State Bool Bool
built = construct api env none params connected

pub construct-built : construct api env none params connected ≡ (done tt, built.1)
unfolding construct use_port create_client acquire must_create find insert_or_assign create
construct-built = refl

abbrev pub ticked : Outcome NodeStatus × State Bool Bool
ticked = tick api env built.1

tick-built : tick api env built.1 ≡ (done running, ticked.1)
unfolding construct use_port create_client acquire must_create find insert_or_assign create tick
    refresh_client with_client dispatch start send_request now
tick-built = refl

pub built-status : built.1.status ≡ idle
unfolding construct use_port create_client acquire must_create find insert_or_assign create
built-status = refl

pub one_tick : Reach api built.1 (set_status running ticked.1)
one_tick = next here (ticks env running ticked.1 (λ h. cc) (rw built-status refl) tick-built)

pub env-IsBenign : IsBenign env
env-IsBenign = record {
  request_set = refl;
  response_received = λ r. refl;
  failed = λ c. refl;
  made = refl;
  spun = refl;
  waited = refl;
}

life_without_faults_example :
    IsReady (set_status running ticked.1)
    × NeverFaults (tick api env (set_status running ticked.1)).0
life_without_faults_example =
    life_without_faults api api-IsDocumented env env none params connected built.1
      (set_status running ticked.1) construct-built one_tick refl env-IsBenign
