-- ===== src/ClientInstances/Tests.antt =====
-- An action client and a subscription on one ROS node.
use behavior_tree_ros.ClientInstances.{
  Graph, InstanceEnv, action_client, subscription, open_instance, taken_by_node,
  action_client_instance, subscriber_instance,
}
use behavior_tree_ros.ClientInstances.Executors.{
  Reach, nothing, here, next, own_executors, AllPrivate,
}
use behavior_tree_ros.Prelude.{refl, ℕ, arith}
use behavior_tree_ros.Program.{done}

abbrev group : ℕ → InstanceEnv
group g = record { new_group = done g; add_group = done tt; make_endpoint = done tt }

abbrev two : Graph
two =
    (open_instance (group 5) subscription 1 "/bt" "chatter"
      (open_instance (group 4) action_client 0 "/bt" "sleep" nothing).1).1

two-Reach : Reach nothing two
unfolding action_client_instance subscriber_instance taken_by_node
two-Reach =
    next (group 5) subscription 1 "/bt" "chatter"
      (next (group 4) action_client 0 "/bt" "sleep" here (λ g h. refl)) (λ g h. ground arith)

own_executors_example : AllPrivate two two.endpoints
own_executors_example = own_executors two two-Reach
