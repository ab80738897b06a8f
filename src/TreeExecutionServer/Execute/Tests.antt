-- ===== src/TreeExecutionServer/Execute/Tests.antt =====
-- A goal that comes after the parameters have changed.
use behavior_tree_ros.TreeExecutionServer.Execute.Frame.{execute_names_tree}
use behavior_tree_ros.TreeExecutionServer.Getters.{tree_name, goal_payload, factory}
use behavior_tree_ros.TreeExecutionServer.{Server, members}
use behavior_tree_ros.TreeExecutionServer.Execute.{ExecuteEnv, execute}
use behavior_tree_ros.TreeExecutionServer.Execute.Escapes.{registration_escapes}
use behavior_tree_ros.TreeExecutionServer.Execute.Ending.{ends}
use behavior_tree_ros.TreeExecutionServer.Tests.{env, params, goal}
use behavior_tree_ros.BtUtils.{clear_registered_behavior_trees, register_nodes_into_factory}
use behavior_tree_ros.BtUtils.Tests.{host, missing, missing_path}
use behavior_tree_ros.Program.{done, throws, other_error, runtime_error}
use behavior_tree_ros.Prelude.{true, ◌≡◌, ◌∷◌, [], refl, false}

-- A directory of the new parameters does not exist.
abbrev changed : ExecuteEnv
changed = record env {
  is_old = true;
  registration = record {
    host = host;
    new_params = record params { load = missing };
    register_nodes = done tt;
  };
}

registration_escapes_example :
    let (o, t) = execute changed goal (members params) in
    (o ≡ throws (other_error "no such directory"))
    × (ends t.events ≡ 0)
    × (t.factory_calls ≡ register_nodes_into_factory ∷ clear_registered_behavior_trees ∷ [])
registration_escapes_example =
    registration_escapes changed goal (members params) "robot/nothing" "/opt/robot/nothing" []
      (other_error "no such directory") refl refl missing_path (λ h. cc) refl refl

-- The tree of the goal is not known, and the server has executed another one before.
abbrev unknown_tree : ExecuteEnv
unknown_tree = record env { create_tree = throws (runtime_error "no such tree") }

abbrev docked : Server
docked = record (members params) { tree_name = "dock" }

execute_names_tree_example :
    let t = (execute unknown_tree goal docked).1 in
    (tree_name t ≡ "dock")
    × (goal_payload t ≡ "")
    × (factory t ≡ [])
    × (t.params ≡ params)
    × (t.factory_initialized ≡ false)
unfolding tree_name goal_payload factory
execute_names_tree_example = execute_names_tree unknown_tree goal docked
