-- ===== src/Registry/Copies/Tests.antt =====
-- The same name, looked up by a node of each wrapper.
use behavior_tree_ros.Registry.Copies.{
  action_view, service_view, SharesOrMakes, create_clients_share_or_make,
}
use behavior_tree_ros.ActionNode.Tests.{env as action_env, connected as action_node}
use behavior_tree_ros.ActionNode.Client.{create_client as create_action_client}
use behavior_tree_ros.ServiceNode.Tests.{env, connected}
use behavior_tree_ros.ServiceNode.{create_client}
use behavior_tree_ros.Prelude.{refl}

create_clients_share_or_make_example :
    SharesOrMakes "/bt/dock" action_node.client_instance action_node.registry
      action_env.server_found action_env.make_instance
      (action_view (create_action_client action_env "dock" action_node))
    × SharesOrMakes "/bt/dock" connected.srv_instance connected.registry env.service_found
        env.make_instance
        (service_view (create_client env "dock" connected))
create_clients_share_or_make_example =
    create_clients_share_or_make action_env env "dock" "/bt" action_node connected (λ h. cc)
      (λ h. cc) refl refl
