-- ===== src/Samples/Programs/Tests.antt =====
-- The programs on concrete inputs.
use behavior_tree_ros.Plugins.{register_ros_node as run_register_ros_node}
use behavior_tree_ros.Samples.Programs.{
  Libraries, sleep_client, bool_client, bool_server, bool_tree, ask_plugin,
}
use behavior_tree_ros.Samples.Programs.Nodes.{InputPorts, IsReading, attribute, leaves}
use behavior_tree_ros.Samples.Programs.Clients.{IsServed}
use behavior_tree_ros.Samples.Programs.Meeting.{AllSucceed, bool_client_succeeds}
use behavior_tree_ros.ServiceNode.{State, Env, members}
use behavior_tree_ros.ServiceNode.Tests.{env, params}
use behavior_tree_ros.Ros.Tests.{api, api-IsDocumented}
use behavior_tree_ros.Program.{done, runtime_error, throws}
use behavior_tree_ros.Prelude.{Bool, false, true, if◌then◌else◌, str_eq, none, ◌≡◌, [], some, refl}
use behavior_tree_ros.Ports.{find_port}
use behavior_tree_ros.Ros.{completed}

abbrev ports : InputPorts
ports = record {
  input_port = λ declared xs key. elim (attribute key xs) [
    | some value ↦ some value
    | none ↦ elim (find_port key declared) [ some p ↦ p.default_value | none ↦ none ]
  ];
  to_bool = λ text. if str_eq text "true" then some true else none;
}

ports-IsReading : IsReading ports
ports-IsReading = record {
  given = λ declared xs key value declares has_text. rw (has_text, ports);
  defaulted = λ declared xs key p declares no_text. rw (no_text, declares, ports);
  reads_true = refl;
}

abbrev libs : Libraries
libs = record {
  answer = λ c. done tt;
  host = record {
    share = λ name. done "/share";
    list_directory = λ path. done [];
    register_file = λ path. done tt;
    load_library = λ path. done tt;
    has_plugin_symbol = λ path. false;
    has_ros_plugin_symbol = λ path. false;
    run_plugin = λ path. done tt;
  };
  no_symbol = runtime_error "no symbol";
}

-- Without the symbol in its library, the client with plugins ends before its tree is made.
sleep_client_stops : (sleep_client libs true []).0 ≡ throws (runtime_error "no symbol")
unfolding sleep_client ask_plugin run_register_ros_node
sleep_client_stops = refl

abbrev served_env : Env Bool Bool
served_env = record env {
  rclcpp_ok = true;
  ros_node = some "/bool_client";
  make_instance = done tt;
  service_ready = true;
  spin_some = done tt;
  spin_response = done completed;
}

served_env-IsServed : IsServed served_env "/bool_client"
served_env-IsServed = record {
  ok = refl;
  node = refl;
  made = refl;
  ready = refl;
  spun = refl;
  complete = refl;
}

abbrev fresh : State Bool Bool
fresh = record {
  node = members params;
  registry = record { entries = []; held = []; next_instance = 0 };
  calls = [];
}

bool_client_succeeds_example :
    AllSucceed api ports served_env served_env served_env
      (bool_client libs []).1
      (bool_server libs []).1
      fresh
      (leaves bool_tree)
bool_client_succeeds_example =
    bool_client_succeeds api api-IsDocumented ports served_env served_env served_env "/bool_client"
      served_env-IsServed served_env-IsServed served_env-IsServed libs fresh ports-IsReading
      (λ c. refl) refl refl
