-- ===== src/ClientInstances.antt =====
-- The constructors of the client instances that the registries share (`ActionClientInstance` in
-- behaviortree_ros2/include/behaviortree_ros2/bt_action_node.hpp, `ServiceClientInstance` in
-- bt_service_node.hpp, `SubscriberInstance` in bt_topic_sub_node.hpp): each makes a callback group on
-- the ROS node, adds it to its own executor and makes its endpoint in that group. Instances and
-- groups are numbers. How a constructor ends is the `make_instance` of its wrapper.
pub mod Executors
mod Tests
use behavior_tree_ros.Prelude.{
  ℕ, String, List, Bool, Option, ◌∷◌, [], false, some, none, ◌==◌, if◌then◌else◌,
}
use behavior_tree_ros.Program.{Outcome, Program, modify, lift, pure, ◌>>=◌, ◌>>◌}

-- `create_callback_group(MutuallyExclusive, automatically_add_to_executor_with_node)`
pub record Group : Type 0 where
  pub id : ℕ
  pub node : String
  pub automatic : Bool

pub data Kind : Type 0 where
  action_client service_client subscription : Kind

pub record Endpoint : Type 0 where
  pub kind : Kind
  pub name : String
  pub group : ℕ
  -- the instance whose constructor made it
  pub instance : ℕ

-- What the constructors have made so far; `added` are the groups of the instances' executors.
pub record Graph : Type 0 where
  pub groups : List Group
  pub added : List (ℕ × ℕ)
  pub endpoints : List Endpoint

-- The answers of rclcpp: the group that `create_callback_group` makes, and how the calls end.
pub record InstanceEnv : Type 0 where
  pub new_group : Outcome ℕ
  pub add_group : Outcome (Unit {0})
  pub make_endpoint : Outcome (Unit {0})

module _ (e : InstanceEnv) where
  abbrev create_callback_group : String → Bool → Program Graph ℕ
  create_callback_group node automatic = do
    g ← lift e.new_group
    modify
        λ s. record s { groups = record { id = g; node = node; automatic = automatic } ∷ s.groups }
    pure g

  abbrev add_callback_group : ℕ → ℕ → Program Graph (Unit {0})
  add_callback_group instance g = do
    lift e.add_group
    modify λ s. record s { added = (instance, g) ∷ s.added }

  abbrev create_endpoint : Endpoint → Program Graph (Unit {0})
  create_endpoint p = do lift e.make_endpoint; modify λ s. record s { endpoints = p ∷ s.endpoints }

  -- `ActionClientInstance::ActionClientInstance`
  unfoldable pub action_client_instance : ℕ → String → String → Program Graph (Unit {0})
  action_client_instance instance node name = do
    g ← create_callback_group node false
    add_callback_group instance g
    create_endpoint (record { kind = action_client; name = name; group = g; instance = instance })

  -- `ServiceClientInstance::ServiceClientInstance`
  unfoldable pub service_client_instance : ℕ → String → String → Program Graph (Unit {0})
  service_client_instance instance node name = do
    g ← create_callback_group node false
    add_callback_group instance g
    create_endpoint (record { kind = service_client; name = name; group = g; instance = instance })

  -- `SubscriberInstance::SubscriberInstance`
  unfoldable pub subscriber_instance : ℕ → String → String → Program Graph (Unit {0})
  subscriber_instance instance node name = do
    g ← create_callback_group node false
    add_callback_group instance g
    create_endpoint (record { kind = subscription; name = name; group = g; instance = instance })

  -- The constructor of the instance with a given kind of endpoint.
  abbrev pub open_instance : Kind → ℕ → String → String → Program Graph (Unit {0})
  open_instance action_client = action_client_instance
  open_instance service_client = service_client_instance
  open_instance subscription = subscriber_instance

-- What rclcpp knows of a group: whether the node's executors take it, and the executors that have it.
pub taken_by_node : ℕ → List Group → Option Bool
taken_by_node g [] = none
taken_by_node g (c ∷ cs) = if c.id == g then some c.automatic else taken_by_node g cs

pub executors_of : ℕ → List (ℕ × ℕ) → List ℕ
executors_of g [] = []
executors_of g ((i, h) ∷ rest) = if h == g then i ∷ executors_of g rest else executors_of g rest
