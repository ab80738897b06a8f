-- ===== src/ActionNode/Client/Tests.antt =====
-- Names and clients of RosActionNode on concrete inputs.
use behavior_tree_ros.Prelude.{ℕ, true, some, ◌∷◌, [], none, refl, ◌≡◌}
use behavior_tree_ros.Program.{done}
use behavior_tree_ros.Ros.Tests.{api}
use behavior_tree_ros.ActionNode.{State, wait_for_action_server}
use behavior_tree_ros.ActionNode.Client.{construct, use_port, members, create_client}
use behavior_tree_ros.ActionNode.Tick.{refresh_client}
use behavior_tree_ros.Registry.{acquire, must_create, find, insert_or_assign, create}
use behavior_tree_ros.ActionNode.Tests.{env, connected, params}

-- The node after its constructor has used the default port.
abbrev constructed : State ℕ ℕ
constructed = record {
  node = record (members params) {
    client_instance = some 1;
    action_name = "sleep";
    action_client_key = "/bt/sleep";
  };
  registry = record { entries = ("/bt/sleep", 1) ∷ []; held = []; next_instance = 2 };
  calls = wait_for_action_server 5 ∷ [];
}

-- The instance that nothing holds has expired, so the node makes one.
construct-default : construct api env none params connected ≡ (done tt, constructed)
unfolding construct use_port create_client acquire must_create find insert_or_assign create
construct-default = refl

create_client-sleep :
    create_client env "sleep" (record connected { node = members params })
    ≡ (done true, constructed)
unfolding create_client acquire must_create find insert_or_assign create
create_client-sleep = refl

-- A node whose port is a blackboard entry.
abbrev unnamed_node : State ℕ ℕ
unnamed_node = record connected {
  node = record (members params) { action_name_should_be_checked = true };
}

abbrev named : State ℕ ℕ
named = record {
  node = record (unnamed_node.node) {
    client_instance = some 1;
    action_name = "fibonacci";
    action_client_key = "/bt/fibonacci";
  };
  registry = record {
    entries = ("/bt/sleep", 0) ∷ ("/bt/fibonacci", 1) ∷ [];
    held = [];
    next_instance = 2;
  };
  calls = wait_for_action_server 5 ∷ [];
}

refresh_client-unnamed : refresh_client api env unnamed_node ≡ (done tt, named)
unfolding refresh_client create_client acquire must_create find insert_or_assign create
refresh_client-unnamed = refl
