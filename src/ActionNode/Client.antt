-- ===== src/ActionNode/Client.antt =====
-- bt_action_node.hpp: the constructor, `createClient` and `setActionName`.
pub mod Naming
mod Tests
use behavior_tree_ros.Prelude.{
  String, ◌<>◌, Bool, true, false, not, ◌&&◌, Option, none, some, ◌∷◌, str_eq, is_some,
  if◌then◌else◌,
}
use behavior_tree_ros.Program.{
  Program, runtime_error, ◌>>=◌, ◌>>◌, pure, throw, lift, gets, modify, when, ignore,
}
use behavior_tree_ros.Registry.{must_create, acquire}
use behavior_tree_ros.Ros.{Api, idle}
use behavior_tree_ros.RosNodeParams.{RosNodeParams, went_out_of_scope}
use behavior_tree_ros.ActionNode.{RosActionNode, State, Env, no_result, wait_for_action_server}

module _ {G F R : Type 0} (e : Env G F R) where
  -- `node_.lock()`, or the exception where the node is gone.
  abbrev lock_node : Program (State G R) String
  lock_node = elim e.ros_node [
    | none ↦ throw (runtime_error went_out_of_scope)
    | some fully_qualified ↦ pure fully_qualified
  ]

  abbrev use_instance : String → State G R → State G R
  use_instance key s =
      let (i, r) = acquire key s.client_instance s.registry in
      record s { node = record (s.node) { client_instance = i }; registry = r }

  unfoldable pub create_client : String → Program (State G R) Bool
  create_client name = do
    when (str_eq name "") (throw (runtime_error "action_name is empty"))
    fully_qualified ← lock_node
    let key = fully_qualified <> "/" <> name
    modify λ s. record s { node = record (s.node) { action_client_key = key } }
    must ← gets λ s. must_create key s.client_instance s.registry
    when must (lift e.make_instance)
    modify (use_instance key)
    modify λ s. record s {
      node = record (s.node) { action_name = name };
      calls = wait_for_action_server s.wait_for_server_timeout ∷ s.calls;
    }
    pure e.server_found

  unfoldable pub set_action_name : String → Program (State G R) (Unit {0})
  set_action_name name = do
    modify λ s. record s { node = record (s.node) { action_name = name } }
    ignore (create_client name)

-- The members before the body of the constructor runs.
abbrev pub members : {R : Type 0} → RosNodeParams → RosActionNode R
members p = record {
  status = idle;
  client_instance = none;
  action_name = "";
  action_name_should_be_checked = false;
  server_timeout = p.server_timeout;
  wait_for_server_timeout = p.wait_for_server_timeout;
  action_client_key = "";
  future_goal_handle = false;
  goal_handle = none;
  time_goal_sent = 0;
  on_feedback_state_change = idle;
  goal_received = false;
  result = no_result;
}

module _ {G F R : Type 0} (api : Api) (e : Env G F R) where
  -- `config().input_ports.find("action_name")` and what is done with it.
  unfoldable pub use_port : Option String → Program (State G R) (Unit {0})
  use_port none = pure tt
  use_port (some name) =
      if api.is_blackboard_pointer name
      then (modify
          λ s. record s { node = record (s.node) { action_name_should_be_checked = true } })
      else when (not (str_eq name "")) (ignore (create_client e name))

  -- The body of the constructor, with the port's text in the XML and the parameters.
  unfoldable pub construct : Option String → RosNodeParams → Program (State G R) (Unit {0})
  construct port p = do
    modify λ s. record s { node = members p }
    use_port port
    has_client ← gets λ s. is_some s.client_instance
    when (not has_client && not (str_eq p.default_port_value ""))
        (ignore (create_client e p.default_port_value))
