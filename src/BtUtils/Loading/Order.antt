-- ===== src/BtUtils/Loading/Order.antt =====
-- In which order the entries of a directory are loaded, and what an exception stops.
use behavior_tree_ros.Prelude.{
  List, ◌≢◌, String, ◌∷◌, ◌≡◌, if◌then◌else◌, str_eq, [], refl, arith, eq_iff,
}
use behavior_tree_ros.Program.{done, Exception, throws, NeverFaults, faults}
use behavior_tree_ros.RosNodeParams.{RosNodeParams}
use behavior_tree_ros.BtUtils.{
  Host, DirectoryEntry, FactoryCall, plugin_symbol, register_behavior_tree_from_file,
  ros_plugin_symbol, get_directory_path,
}
use behavior_tree_ros.BtUtils.Loading.{
  load_tree, register_behavior_trees, in_directory, load_plugins, LoadParams, for_each,
  load_behavior_trees, load_plugin, register_plugins,
}

abbrev tree_calls : List DirectoryEntry → List FactoryCall → List FactoryCall
tree_calls [] cs = cs
tree_calls (d ∷ ds) cs =
    tree_calls ds
      (if str_eq d.extension ".xml" then register_behavior_tree_from_file d.path ∷ cs else cs)

module _ (host : Host) where
  load_tree-step :
      (d : DirectoryEntry) (cs : List FactoryCall)
      → NeverFaults (host.register_file d.path)
      → load_tree host d cs ≡ (
        done tt,
        if str_eq d.extension ".xml" then register_behavior_tree_from_file d.path ∷ cs else cs,
      )
  unfolding load_tree
  load_tree-step d cs sane = ground arith

  each_tree :
      (ds : List DirectoryEntry) (cs : List FactoryCall)
      → ((path : String) → NeverFaults (host.register_file path))
      → for_each (load_tree host) ds cs ≡ (done tt, tree_calls ds cs)
  unfolding for_each
  each_tree [] cs sane = refl
  each_tree (d ∷ ds) cs sane =
      rw (load_tree-step d cs (sane d.path), for_each) (each_tree ds _ sane)

  -- Where the directory can be listed, and the factory returns or throws, every XML file is handed
  -- to the factory, in the directory's order, whichever of them the factory refuses, and
  -- `LoadBehaviorTrees` returns.
  load_behavior_trees_all :
      (directory : String) (ds : List DirectoryEntry) (cs : List FactoryCall)
      → ((path : String) → NeverFaults (host.register_file path))
      → host.list_directory directory ≡ done ds
      → load_behavior_trees host directory cs ≡ (done tt, tree_calls ds cs)
  unfolding load_behavior_trees
  load_behavior_trees_all directory ds cs sane listed =
      rw (listed, load_behavior_trees) (each_tree ds cs sane)

  -- Where the library and the plugin return or throw, `LoadPlugin` returns: the plugin is asked for
  -- the plain symbol first and for the ROS symbol, with the parameters, only without that one, and
  -- for nothing where the library cannot be loaded.
  load_plugin_contained :
      (params : RosNodeParams) (path : String) (cs : List FactoryCall)
      → NeverFaults (host.load_library path)
      → NeverFaults (host.run_plugin path)
      → let (o, t) = load_plugin host params path cs in
        (o ≡ done tt)
        × (t ≡ elim (host.load_library path) [
          | done loaded ↦
              if host.has_plugin_symbol path
              then plugin_symbol path ∷ cs
              else if host.has_ros_plugin_symbol path
              then ros_plugin_symbol path params ∷ cs
              else cs
          | throws e ↦ cs
          | faults u ↦ cs
        ])
  unfolding load_plugin
  load_plugin_contained params path cs sane_library sane_plugin = (ground arith, ground arith)

  -- A first directory of plugins that has a path but cannot be listed.
  pub register_plugins_missing :
      (p : LoadParams) (value directory : String) (plugins : List String) (e : Exception)
      (cs : List FactoryCall)
      → get_directory_path host.share value ≡ done directory
      → directory ≢ ""
      → host.list_directory directory ≡ throws e
      → p.plugins ≡ value ∷ plugins
      → register_plugins host p cs ≡ (throws e, cs)
  unfolding register_plugins for_each in_directory load_plugins
  register_plugins_missing p value directory plugins e cs found some_path missing h =
      rw (h, register_plugins, for_each) (ground (arith, eq_iff directory ""))

  -- Where the first directory of the parameters has a path but cannot be listed, it is not skipped:
  -- the exception of the directory iterator leaves `RegisterPlugins` and `RegisterBehaviorTrees`.
  register_missing_subfolder :
      (p : LoadParams) (value directory : String) (plugins trees : List String) (e : Exception)
      (cs : List FactoryCall)
      → get_directory_path host.share value ≡ done directory
      → directory ≢ ""
      → host.list_directory directory ≡ throws e
      → p.plugins ≡ value ∷ plugins
      → p.behavior_trees ≡ value ∷ trees
      → (register_plugins host p cs ≡ (throws e, cs))
        × (register_behavior_trees host p cs ≡ (throws e, cs))
  unfolding register_behavior_trees for_each in_directory load_behavior_trees
  register_missing_subfolder p value directory plugins trees e cs found some_path missing h k = (
    register_plugins_missing p value directory plugins e cs found some_path missing h,
    rw (k, register_behavior_trees, for_each) (ground (arith, eq_iff directory "")),
  )
