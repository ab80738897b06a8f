-- ===== src/ActionNode/World/Shared/Tests.antt =====
-- Two nodes that are made for the same action server.
use behavior_tree_ros.ActionNode.World.{
  World, Reach, IsHeld, local, put, no_nodes, constructs, here, next,
}
use behavior_tree_ros.ActionNode.World.Shared.{key_of, clients_shared_by_key}
use behavior_tree_ros.ActionNode.{State}
use behavior_tree_ros.ActionNode.Client.{construct, use_port, create_client}
use behavior_tree_ros.ActionNode.Tests.{env, params}
use behavior_tree_ros.Registry.{acquire, must_create, find, insert_or_assign, create, lock}
use behavior_tree_ros.Ros.{NodeStatus}
use behavior_tree_ros.Ros.Tests.{api}
use behavior_tree_ros.Prelude.{ℕ, String, ◌≡◌, ◌↔◌, ◌∷◌, [], some, none, refl, inr, arith}
use behavior_tree_ros.Program.{done}

abbrev ros_name : ℕ → String
ros_name n = "/bt"

abbrev first : State ℕ ℕ
first = (construct api env none params (local 0 [] (no_nodes params))).1

abbrev one : World ℕ
one = put 0 first (no_nodes params)

abbrev second : State ℕ ℕ
second = (construct api env none params (local 1 (0 ∷ []) one)).1

abbrev two : World ℕ
two = put 1 second one

constructed :
    (construct api env none params (local 0 [] (no_nodes params)) ≡ (done tt, first))
    × (construct api env none params (local 1 (0 ∷ []) one) ≡ (done tt, second))
    × ((two.nodes 0).client_instance ≡ some 0)
    × ((two.nodes 1).client_instance ≡ some 0)
unfolding construct use_port create_client acquire must_create find insert_or_assign create lock
constructed = (refl, refl, refl, refl)

one-IsHeld : IsHeld one (0 ∷ [])
unfolding construct use_port create_client acquire must_create find insert_or_assign create lock
one-IsHeld n i h = ground arith

two-Reach : Reach ℕ NodeStatus ℕ api ros_name (no_nodes params) two
two-Reach =
    next
      (next here
        (constructs 0 [] env none params first refl (λ n i h. cc) (inr refl) constructed.0))
      (constructs 1 (0 ∷ []) env none params second refl one-IsHeld (inr refl) constructed.1)

abbrev shared : ℕ
shared = 0

clients_shared_by_key_example : (key_of ros_name two 0 ≡ key_of ros_name two 1) ↔ (shared ≡ shared)
clients_shared_by_key_example =
    clients_shared_by_key api ros_name params two 0 1 shared shared two-Reach constructed.2
      constructed.3
