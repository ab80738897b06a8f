-- ===== src/TopicPubNode/Life/Tests.antt =====
-- A publisher that has published once.
use behavior_tree_ros.TopicPubNode.{State, tick, refresh_publisher, create_publisher, send, publish}
use behavior_tree_ros.TopicPubNode.Tests.{env, no_name, unnamed_node, construct-unnamed}
use behavior_tree_ros.TopicPubNode.Life.{
  Reach, set_status, here, next, ticks, resets, published_throughout, faults_exactly_unnamed,
}
use behavior_tree_ros.Ros.Tests.{api}
use behavior_tree_ros.Ros.{success, idle}
use behavior_tree_ros.Program.{done, is_fault}
use behavior_tree_ros.Prelude.{ℕ, ◌≡◌, refl, some, ◌∷◌, if◌then◌else◌, true}

abbrev published_once : State ℕ
published_once = (tick env unnamed_node).1

tick-unnamed : tick env unnamed_node ≡ (done success, published_once)
unfolding tick refresh_publisher create_publisher send publish
tick-unnamed = refl

abbrev later : State ℕ
later = set_status idle (set_status success published_once)

later-Reach : Reach unnamed_node later
later-Reach = next (next here (ticks env success published_once tick-unnamed)) resets

later-names : "chatter" ≡ (if later.topic_name_may_change then "chatter" else later.prev_topic_name)
unfolding tick refresh_publisher create_publisher send publish
later-names = refl

published_throughout_example :
    let (o, v) = tick env later in
    (o ≡ done success) × (v.published ≡ ("chatter", 5) ∷ later.published)
published_throughout_example =
    published_throughout env env api (some "{name}") "" unnamed_node unnamed_node later 5 "chatter"
      construct-unnamed later-Reach refl refl refl later-names (λ h. cc)

faults_exactly_unnamed_example : is_fault (tick no_name unnamed_node).0 ≡ true
faults_exactly_unnamed_example =
    faults_exactly_unnamed env no_name api (some "{name}") "" unnamed_node unnamed_node unnamed_node
      construct-unnamed here refl refl
