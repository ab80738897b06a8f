-- ===== src/BtUtils/Loading.antt =====
-- bt_utils.cpp: `LoadBehaviorTrees`, `LoadPlugin`, `RegisterPlugins` and `RegisterBehaviorTrees`.
-- The state is the list of what was asked of the factory and of the plugins, the latest first.
pub mod Order
pub mod Log
use behavior_tree_ros.Prelude.{List, String, ℕ, ◌∷◌, if◌then◌else◌, str_eq, [], not}
use behavior_tree_ros.Program.{Program, modify, pure, when, lift, try_catch, ◌>>◌, ◌>>=◌}
use behavior_tree_ros.RosNodeParams.{RosNodeParams}
use behavior_tree_ros.BtUtils.{
  FactoryCall, DirectoryEntry, plugin_symbol, register_behavior_tree_from_file, ros_plugin_symbol,
  get_directory_path, Host,
}

-- The parameters that the loading reads (behaviortree_ros2/src/bt_executor_parameters.yaml).
pub record LoadParams : Type 0 where
  pub plugins : List String
  pub ros_plugins_timeout : ℕ
  pub behavior_trees : List String

abbrev pub Calls : Type 0
Calls = List FactoryCall

abbrev pub call : FactoryCall → Program Calls (Unit {0})
call c = modify λ cs. c ∷ cs

-- `for(const auto& x : xs) { body }`
unfoldable pub for_each :
    {A : Type 0} → (A → Program Calls (Unit {0})) → List A → Program Calls (Unit {0})
for_each body [] = pure tt
for_each body (x ∷ xs) = body x >> for_each body xs

module _ (host : Host) where
  -- `try { factory.registerBehaviorTreeFromFile(path) } catch ...`, for a file with the extension.
  unfoldable pub load_tree : DirectoryEntry → Program Calls (Unit {0})
  load_tree entry = when (str_eq entry.extension ".xml") (
      try_catch
        (call (register_behavior_tree_from_file entry.path) >> lift (host.register_file entry.path))
        (λ e. pure tt))

  unfoldable pub load_behavior_trees : String → Program Calls (Unit {0})
  load_behavior_trees directory_path =
      lift (host.list_directory directory_path) >>= for_each load_tree

  -- The body of the `try` block of `LoadPlugin`.
  run_registration : RosNodeParams → String → Program Calls (Unit {0})
  run_registration params path =
      if host.has_plugin_symbol path
      then (call (plugin_symbol path) >> lift (host.run_plugin path))
      else when (host.has_ros_plugin_symbol path)
          (call (ros_plugin_symbol path params) >> lift (host.run_plugin path))

  unfoldable pub load_plugin : RosNodeParams → String → Program Calls (Unit {0})
  unfolding run_registration
  load_plugin params path =
      try_catch (lift (host.load_library path) >> run_registration params path) (λ e. pure tt)

  -- A body for a directory that has been found; the others are skipped.
  unfoldable pub in_directory :
      (String → Program Calls (Unit {0})) → String → Program Calls (Unit {0})
  in_directory body value = do
    directory ← lift (get_directory_path host.share value)
    when (not (str_eq directory "")) (body directory)

  load_plugin_entry : RosNodeParams → DirectoryEntry → Program Calls (Unit {0})
  load_plugin_entry params entry =
      when (str_eq entry.extension ".so") (load_plugin params entry.path)

  unfoldable pub load_plugins : RosNodeParams → String → Program Calls (Unit {0})
  unfolding load_plugin_entry
  load_plugins params directory =
      lift (host.list_directory directory) >>= for_each (load_plugin_entry params)

  -- `ros_params` of `RegisterPlugins`.
  abbrev pub plugin_params : LoadParams → RosNodeParams
  plugin_params p = record {
    default_port_value = "";
    server_timeout = p.ros_plugins_timeout;
    wait_for_server_timeout = p.ros_plugins_timeout;
  }

  unfoldable pub register_plugins : LoadParams → Program Calls (Unit {0})
  register_plugins p = for_each (in_directory (load_plugins (plugin_params p))) p.plugins

  unfoldable pub register_behavior_trees : LoadParams → Program Calls (Unit {0})
  register_behavior_trees p = for_each (in_directory load_behavior_trees) p.behavior_trees
