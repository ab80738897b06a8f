-- ===== src/TreeExecutionServer/Getters.antt =====
-- tree_execution_server.cpp: `treeName`, `goalPayload` and `factory`, of which the last is what was
-- asked of the factory so far.
use behavior_tree_ros.TreeExecutionServer.{Server}
use behavior_tree_ros.BtUtils.{FactoryCall}
use behavior_tree_ros.Prelude.{String, List}

unfoldable pub tree_name : Server → String
tree_name s = s.tree_name

unfoldable pub goal_payload : Server → String
goal_payload s = s.payload

unfoldable pub factory : Server → List FactoryCall
factory s = s.factory_calls
