-- ===== src/TopicPubNode/Tests.antt =====
-- Runs of RosTopicPubNode on concrete inputs.
use behavior_tree_ros.Prelude.{ℕ, none, refl, some, true, [], ◌≡◌}
use behavior_tree_ros.Program.{done}
use behavior_tree_ros.Ros.Tests.{api}
use behavior_tree_ros.TopicPubNode.{Env, use_port, members, State, construct}
use behavior_tree_ros.TopicPubNode.Topics.{IsConsistent}

abbrev pub env : Env ℕ
env = record {
  lock_node = done tt;
  topic_name_input = some "chatter";
  make_publisher = done tt;
  set_message = done (some 5);
}

-- The node of a port with a blackboard entry, after its constructor.
abbrev pub unnamed_node : State ℕ
unnamed_node = record { node = record members { topic_name_may_change = true }; published = [] }

pub construct-unnamed : construct env api (some "{name}") "" unnamed_node ≡ (done tt, unnamed_node)
unfolding construct use_port
construct-unnamed = refl

unnamed_node-IsConsistent : IsConsistent unnamed_node
unnamed_node-IsConsistent = record {
  matches = λ h. cc;
  unnamed = λ h. refl;
  may_change = λ h. refl;
}

abbrev pub no_name : Env ℕ
no_name = record env { topic_name_input = none }
