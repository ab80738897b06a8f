-- ===== src/TopicSubNode/Slots.antt =====
-- What `RosTopicSubNode` does to its slots when its port names another topic.
use behavior_tree_ros.Ros.{Api, NodeStatus}
use behavior_tree_ros.TopicSubNode.{
  Env, World, create_subscriber, use_instance, connect, refresh_subscriber, answer, destroy, tick,
  check_status, broadcast, assign,
}
use behavior_tree_ros.Prelude.{
  ℕ, ◌≡◌, ◌≢◌, some, String, ◌<◌, ◌<>◌, none, arith, get_or, Option, eq_iff, contains, true,
}
use behavior_tree_ros.Program.{Outcome, done, throws, faults}
use behavior_tree_ros.Registry.{acquire, create, lock, find}
use behavior_tree_ros.TopicSubNode.Deliveries.{spin_some-latest, notify_lem}

module _ {M : Type 0} (api : Api) (e : Env M) (n : ℕ) where
  -- What a new subscription does to an instance that is not the one it takes.
  abbrev Leaves : ℕ → World M → Outcome (Unit {0}) × World M → Type 0
  Leaves i w (done r, t) =
      (t.instances i ≡ w.instances i)
      × ((t.nodes n).signal_connection ≢ some i)
      × ((t.nodes n).sub_instance ≢ some i)
  Leaves i w (throws x, t) = Unit {0}
  Leaves i w (faults u, t) = Unit {0}

  create_subscriber-Leaves :
      (i : ℕ) (name full : String) (w : World M)
      → e.ros_node ≡ some full
      → i < w.registry.next_instance
      → find (full <> "/" <> name) w.registry.entries ≢ some i
      → (w.nodes n).sub_instance ≡ none
      → Leaves i w (create_subscriber api e n name w)
  unfolding create_subscriber use_instance connect acquire create lock
  create_subscriber-Leaves i name full w alive old other free = ground arith

  -- The tick of a node whose port names another topic subscribes afresh.
  refresh_subscriber-Leaves :
      (i : ℕ) (full : String) (w : World M)
      → (w.nodes n).sub_instance ≡ some i
      → i < w.registry.next_instance
      → e.ros_node ≡ some full
      → get_or e.topic_name_input "" ≢ ""
      → get_or e.topic_name_input "" ≢ "__default__placeholder__"
      → get_or e.topic_name_input "" ≢ (w.nodes n).topic_name
      → find (full <> "/" <> get_or e.topic_name_input "") w.registry.entries ≢ some i
      → Leaves i w (refresh_subscriber api e n (get_or e.topic_name_input "") w)
  unfolding refresh_subscriber
  refresh_subscriber-Leaves i full w subscribed old alive some_name real changed other =
      let name = get_or e.topic_name_input "" in
      let w1 : World M = record w {
        nodes = assign n (record (w.nodes n) { sub_instance = none }) w.nodes;
      } in
      ground (
        arith,
        eq_iff name "",
        eq_iff name "__default__placeholder__",
        eq_iff name (w.nodes n).topic_name,
        create_subscriber-Leaves i name full w1 alive old other,
      )

  -- Answering leaves the slots and the node's connection alone.
  answer-slots :
      (j : Option ℕ) (i : ℕ) (w : World M)
      → let t = (answer api e n j w).1 in
        ((t.instances i).broadcaster ≡ (w.instances i).broadcaster)
        × ((t.nodes n).signal_connection ≡ (w.nodes n).signal_connection)
  unfolding answer check_status
  answer-slots none i w = ground arith
  answer-slots (some j) i w = ground (arith, spin_some-latest j i n e.arrived w)

  destroy-elsewhere :
      (i : ℕ) (t : World M)
      → (t.nodes n).signal_connection ≢ some i
      → ((destroy n t).instances i ≡ t.instances i) × ((destroy n t).nodes n ≡ t.nodes n)
  unfolding destroy
  destroy-elsewhere i t elsewhere = ground arith

  -- A connected node whose port names another topic, one that the registry does not give the same
  -- instance, has a tick that returns, and is then destroyed: it is still connected to the first
  -- instance, and a message that another node's spinning brings there is written into the destroyed
  -- node.
  pub change_leaves_slot :
      (i : ℕ) (full : String) (msg : M) (v : NodeStatus) (w t : World M)
      → (w.nodes n).sub_instance ≡ some i
      → contains ((w.instances i).broadcaster) n ≡ true
      → i < w.registry.next_instance
      → e.ros_node ≡ some full
      → get_or e.topic_name_input "" ≢ ""
      → get_or e.topic_name_input "" ≢ "__default__placeholder__"
      → get_or e.topic_name_input "" ≢ (w.nodes n).topic_name
      → find (full <> "/" <> get_or e.topic_name_input "") w.registry.entries ≢ some i
      → tick api e n w ≡ (done v, t)
      → (contains (((destroy n t).instances i).broadcaster) n ≡ true)
        × ((broadcast i (destroy n t) msg).nodes n ≡ record (t.nodes n) { last_msg = some msg })
  unfolding tick broadcast
  change_leaves_slot i full msg v w t subscribed connected old alive some_name real changed other
        h =
      let r = (refresh_subscriber api e n (get_or e.topic_name_input "") w).1 in
      ground (
        arith,
        refresh_subscriber-Leaves i full w subscribed old alive some_name real changed other,
        answer-slots (r.nodes n).sub_instance i r,
        destroy-elsewhere i t,
        notify_lem msg (((destroy n t).instances i).broadcaster) (destroy n t).nodes n,
      )
