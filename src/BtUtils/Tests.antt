-- ===== src/BtUtils/Tests.antt =====
-- The loading of plugins and trees from a concrete file system.
use behavior_tree_ros.Prelude.{
  String, false, ◌<>◌, ◌≡◌, [], ◌∷◌, if◌then◌else◌, List, true, str_eq, refl,
}
use behavior_tree_ros.RosNodeParams.{RosNodeParams}
use behavior_tree_ros.Program.{Outcome, throws, done, runtime_error, other_error}
use behavior_tree_ros.BtUtils.{
  Host, find_first_of, search_directory, DirectoryEntry, take, drop, get_directory_path,
}
use behavior_tree_ros.BtUtils.Loading.{LoadParams}
use behavior_tree_ros.BtUtils.Paths.{get_directory_path_splits}

abbrev share : String → Outcome String
share name =
    if str_eq name "robot" then done "/opt/robot" else throws (other_error "package not found")

abbrev list_directory : String → Outcome (List DirectoryEntry)
list_directory path =
    if str_eq path "/opt/robot/trees"
    then done (
        record { path = "a.xml"; extension = ".xml" }
        ∷ record { path = "b.txt"; extension = ".txt" }
        ∷ record { path = "c.xml"; extension = ".xml" }
        ∷ [])
    else throws (other_error "no such directory")

abbrev refuse : String → Outcome (Unit {0})
refuse path = throws (runtime_error "bad tree")

abbrev load_library : String → Outcome (Unit {0})
load_library path = done tt

abbrev pub host : Host
host = record {
  share = share;
  list_directory = list_directory;
  register_file = refuse;
  load_library = load_library;
  has_plugin_symbol = λ path. false;
  has_ros_plugin_symbol = λ path. true;
  run_plugin = refuse;
}

get_directory_path_splits_example :
    get_directory_path share ("robot" <> ("/" <> "trees")) ≡ done ("/opt/robot" <> "/" <> "trees")
get_directory_path_splits_example =
    get_directory_path_splits share "robot" "trees" (refl, (refl, (refl, (refl, (refl, tt)))))

abbrev pub with_timeout : RosNodeParams
with_timeout = record { default_port_value = ""; server_timeout = 9; wait_for_server_timeout = 9 }

abbrev pub missing : LoadParams
missing = record {
  plugins = "robot/nothing" ∷ [];
  ros_plugins_timeout = 1000;
  behavior_trees = "robot/nothing" ∷ [];
}

pub missing_path : get_directory_path share "robot/nothing" ≡ done "/opt/robot/nothing"
unfolding get_directory_path find_first_of search_directory take drop
missing_path = refl
