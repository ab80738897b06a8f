-- ===== src/TreeExecutionServer/Reloading/Tests.antt =====
-- A registration on a concrete server.
use behavior_tree_ros.TreeExecutionServer.{Server, members}
use behavior_tree_ros.TreeExecutionServer.Tests.{params}
use behavior_tree_ros.BtUtils.{
  FactoryCall, clear_registered_behavior_trees, register_nodes_into_factory,
  register_behavior_tree_from_file,
}
use behavior_tree_ros.BtUtils.Loading.{Calls}
use behavior_tree_ros.Prelude.{List, String, [], ◌∷◌, Bool, if◌then◌else◌, false, true}

-- A factory that refuses a file until the nodes of its tree are registered; each file has one tree, of
-- the file's name. A clear forgets the trees and not the nodes.
abbrev knows_nodes : Calls → Bool
knows_nodes [] = false
knows_nodes (register_nodes_into_factory ∷ cs) = true
knows_nodes (_ ∷ cs) = knows_nodes cs

abbrev files : Calls → List String
files [] = []
files (clear_registered_behavior_trees ∷ cs) = []
files (register_behavior_tree_from_file path ∷ cs) =
    if knows_nodes cs then path ∷ files cs else files cs
files (_ ∷ cs) = files cs

abbrev file_of : FactoryCall → List String
file_of (register_behavior_tree_from_file path) = path ∷ []
file_of _ = []

-- A server that has loaded a tree.
abbrev loaded : Server
loaded = record (members params) {
  factory_calls = register_behavior_tree_from_file "patrol.xml" ∷ [];
}
