-- ===== src/TreeExecutionServer/Execute/Escapes.antt =====
-- The registration of new parameters, which `execute` makes outside its `try` block.
use behavior_tree_ros.Prelude.{List, String, ◌∷◌, ◌≡◌, ◌≢◌, arith, true}
use behavior_tree_ros.Program.{Exception, done, throws}
use behavior_tree_ros.BtUtils.{
  get_directory_path, clear_registered_behavior_trees, register_nodes_into_factory,
}
use behavior_tree_ros.BtUtils.Loading.Order.{register_plugins_missing}
use behavior_tree_ros.TreeExecutionServer.{Goal, Server, Registration, execute_registration}
use behavior_tree_ros.TreeExecutionServer.Execute.{ExecuteEnv, execute}
use behavior_tree_ros.TreeExecutionServer.Execute.Ending.{ends}

module _ (r : Registration) where
  -- A registration that a directory of plugins stops has emptied the factory already.
  registration_stops :
      (value directory : String) (plugins : List String) (x : Exception) (s : Server)
      → r.register_nodes ≡ done tt
      → get_directory_path r.host.share value ≡ done directory
      → directory ≢ ""
      → r.host.list_directory directory ≡ throws x
      → r.new_params.load.plugins ≡ value ∷ plugins
      → execute_registration r s ≡ (
        throws x,
        record s {
          params = r.new_params;
          factory_calls =
              register_nodes_into_factory ∷ clear_registered_behavior_trees ∷ s.factory_calls;
        },
      )
  unfolding execute_registration
  registration_stops value directory plugins x s nodes found some_path missing h = ground (
    arith,
    nodes,
    register_plugins_missing r.host r.new_params.load value directory plugins x
        (register_nodes_into_factory ∷ clear_registered_behavior_trees ∷ s.factory_calls) found
        some_path missing h,
  )

-- A goal that comes after the parameters have changed, to ones whose first directory of plugins has
-- a path but cannot be listed, where `registerNodesIntoFactory` returns: the exception of the
-- directory iterator leaves `execute`, the goal is not ended, and the factory has been emptied of
-- its trees.
pub registration_escapes :
    (e : ExecuteEnv) (goal : Goal) (s : Server) (value directory : String) (plugins : List String)
    (x : Exception)
    → e.is_old ≡ true
    → e.registration.register_nodes ≡ done tt
    → get_directory_path e.registration.host.share value ≡ done directory
    → directory ≢ ""
    → e.registration.host.list_directory directory ≡ throws x
    → e.registration.new_params.load.plugins ≡ value ∷ plugins
    → let (o, t) = execute e goal s in
      (o ≡ throws x)
      × (ends t.events ≡ ends s.events)
      × (t.factory_calls
          ≡ register_nodes_into_factory ∷ clear_registered_behavior_trees ∷ s.factory_calls)
unfolding execute
registration_escapes e goal s value directory plugins x old nodes found some_path missing h =
    let fresh : Server = record s {
      action_result = record { node_status = 0; return_message = "" };
    } in
    ground (
      arith,
      old,
      registration_stops e.registration value directory plugins x fresh nodes found some_path
          missing h,
    )
