-- ===== src/TopicSubNode/Life/Tests.antt =====
-- The life of two nodes that share a subscriber.
use behavior_tree_ros.TopicSubNode.{World, construct}
use behavior_tree_ros.TopicSubNode.Tests.{env}
use behavior_tree_ros.TopicSubNode.Life.{no_nodes, holding}
use behavior_tree_ros.Ros.Tests.{api}
use behavior_tree_ros.Prelude.{ℕ, [], ◌∷◌, none}

abbrev one_node : World ℕ
one_node = (construct api env 0 none "a" (holding [] no_nodes)).1

abbrev two_nodes : World ℕ
two_nodes = (construct api env 1 none "a" (holding (0 ∷ []) one_node)).1
