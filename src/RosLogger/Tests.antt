-- ===== src/RosLogger/Tests.antt =====
-- Lines of the log on concrete inputs.
use behavior_tree_ros.RosLogger.{callback}
use behavior_tree_ros.Prelude.{none, ◌≡◌, [], refl}
use behavior_tree_ros.Ros.{idle, running}

callback-dead : callback (λ s. "RUNNING") none 0 "Sleep" idle running [] ≡ []
unfolding callback
callback-dead = refl
