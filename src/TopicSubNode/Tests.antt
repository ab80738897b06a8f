-- ===== src/TopicSubNode/Tests.antt =====
-- Two nodes that share a subscriber.
use behavior_tree_ros.TopicSubNode.{
  World, refresh_subscriber, create_subscriber, use_instance, destroy, assign, connect,
  new_instance, broadcast, default_latch_last_message, answer, check_status, notify, Env, spin_some,
  tick,
}
use behavior_tree_ros.Registry.{find, acquire, must_create, create, insert_or_assign}
use behavior_tree_ros.Prelude.{
  ℕ, some, [], ◌≡◌, ◌≢◌, contains, none, if◌then◌else◌, true, is_some, refl, arith, eq_iff, ◌∷◌,
  ◌<>◌,
}
use behavior_tree_ros.Ros.Tests.{api}
use behavior_tree_ros.Program.{done}
use behavior_tree_ros.Ros.{success, failure}
use behavior_tree_ros.TopicSubNode.Slots.{change_leaves_slot}

-- Nodes 0 and 1 are connected to the instance 0.
abbrev world : World ℕ
world = record {
  nodes = λ k. record {
    sub_instance = some 0;
    last_msg = none;
    topic_name = "a";
    signal_connection = some 0;
    subscriber_key = "/bt/a";
  };
  instances = assign 0 (record { broadcaster = 1 ∷ 0 ∷ []; latest_msg = none }) (λ j. new_instance);
  registry = record { entries = ("/bt/a", 0) ∷ []; held = 0 ∷ []; next_instance = 1 };
}

abbrev pub env : Env ℕ
env = record {
  ros_node = some "/bt";
  topic_name_input = some "a";
  make_instance = done tt;
  arrived = 7 ∷ 8 ∷ [];
  on_tick = λ msg. done (if is_some msg then success else failure);
  latch_last_message = default_latch_last_message;
}

-- The port names another topic.
abbrev moved : Env ℕ
moved = record env { topic_name_input = some "b" }

tick-moved : tick api moved 0 world ≡ (done success, (tick api moved 0 world).1)
unfolding tick refresh_subscriber create_subscriber use_instance connect acquire must_create create
    find insert_or_assign answer check_status spin_some broadcast notify
tick-moved = refl

other_instance : find ("/bt" <> "/" <> "b") world.registry.entries ≢ some 0
unfolding find
other_instance = λ h. cc

change_leaves_slot_example :
    let t = (tick api moved 0 world).1 in
    (contains (((destroy 0 t).instances 0).broadcaster) 0 ≡ true)
    × ((broadcast 0 (destroy 0 t) 9).nodes 0 ≡ record (t.nodes 0) { last_msg = some 9 })
change_leaves_slot_example =
    change_leaves_slot api moved 0 0 "/bt" 9 success world (tick api moved 0 world).1 refl refl
      (ground arith) refl (λ h. cc) (λ h. cc) (λ h. ground (arith, eq_iff "b" "a")) other_instance
      tick-moved
