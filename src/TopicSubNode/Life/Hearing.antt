-- ===== src/TopicSubNode/Life/Hearing.antt =====
-- Whoever has a subscriber hears from it, in any life of the nodes.
use behavior_tree_ros.TopicSubNode.{World, Env}
use behavior_tree_ros.Program.Preserving.{Preserves}
use behavior_tree_ros.Ros.{Api}
use behavior_tree_ros.Prelude.{ℕ}
use behavior_tree_ros.Program.{Program}
use behavior_tree_ros.TopicSubNode.Life.Subscribed.{IsSubscribed}

module _ {M : Type 0} (api : Api) (e : Env M) (n : ℕ) where
  abbrev Keeps : {A : Type 0} → Program (World M) A → Type 0
  Keeps m = Preserves IsSubscribed m
