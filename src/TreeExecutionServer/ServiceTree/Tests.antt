-- ===== src/TreeExecutionServer/ServiceTree/Tests.antt =====
-- A service that does not answer.
use behavior_tree_ros.ServiceNode.{now}
use behavior_tree_ros.TreeExecutionServer.ServiceTree.{Turn, rounds_of, service_tree_ends}
use behavior_tree_ros.TreeExecutionServer.Tests.{env, params, goal, tick_round}
use behavior_tree_ros.ServiceNode.Tests.{env as service_env, connected}
use behavior_tree_ros.TreeExecutionServer.Execute.{ExecuteEnv, execute, unfinished}
use behavior_tree_ros.TreeExecutionServer.{members}
use behavior_tree_ros.Ros.Tests.{api, api-IsDocumented}
use behavior_tree_ros.Ros.{running}
use behavior_tree_ros.Prelude.{Bool, ◌≢◌, refl, [], ◌∷◌, arith}
use behavior_tree_ros.Program.{done}

abbrev first : Turn Bool Bool
first = record { env = service_env; round = tick_round running }

-- Ten milliseconds and more later.
abbrev late : Turn Bool Bool
late = record {
  env = record service_env { clock = record { node_time = 20000000; ros_time = 40 } };
  round = tick_round running;
}

abbrev silent : ExecuteEnv
silent = record env { rounds = rounds_of api (first ∷ late ∷ []) connected }

service_tree_ends_example : (execute silent goal (members params)).0 ≢ done unfinished
unfolding now
service_tree_ends_example =
    service_tree_ends api silent goal (members params) first late [] [] connected api-IsDocumented
      (λ h. cc) refl refl (ground arith)
