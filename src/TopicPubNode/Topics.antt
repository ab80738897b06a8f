-- ===== src/TopicPubNode/Topics.antt =====
-- Which topic `RosTopicPubNode::tick` publishes to, and when there is none.
use behavior_tree_ros.Prelude.{
  is_some, ◌≡◌, true, some, none, Option, String, get_or, arith, if◌then◌else◌, ◌≢◌, eq_iff, ◌∷◌,
  Bool,
}
use behavior_tree_ros.Ros.{Api, idle, success}
use behavior_tree_ros.Program.{done, faults, null_pointer}
use behavior_tree_ros.TopicPubNode.{
  State, construct, tick, use_port, refresh_publisher, use_default, create_publisher, send, publish,
  members, Env,
}

-- The name and the publisher belong together: the node has the publisher of its last name, and has
-- none before it has a name.
pub record IsConsistent {M : Type 0} (s : State M) : Type 0 where
  pub matches : is_some s.publisher ≡ true → s.publisher ≡ some s.prev_topic_name
  pub unnamed : s.publisher ≡ none → s.prev_topic_name ≡ ""
  pub may_change : s.publisher ≡ none → s.topic_name_may_change ≡ true

module _ {M : Type 0} (e : Env M) where
  create_publisher-IsConsistent :
      (name : String) (s t : State M) → create_publisher e name s ≡ (done tt, t) → IsConsistent t
  unfolding create_publisher
  create_publisher-IsConsistent name s t h = ground arith

  use_default-IsConsistent :
      (default_port_value : String) (s t : State M)
      → use_default e default_port_value s ≡ (done tt, t)
      → IsConsistent t
  unfolding use_default
  use_default-IsConsistent d s t h = ground (arith, create_publisher-IsConsistent d s t)

  use_port-IsConsistent :
      (f : String → Bool) (port : Option String) (default_port_value : String) (s t : State M)
      → s.publisher ≡ none
      → s.prev_topic_name ≡ ""
      → use_port e f port default_port_value s ≡ (done tt, t)
      → IsConsistent t
  unfolding use_port
  use_port-IsConsistent f none d s t fresh unnamed h = use_default-IsConsistent d s t h
  use_port-IsConsistent f (some name) d s t fresh unnamed h =
      ground (arith, use_default-IsConsistent d s t, create_publisher-IsConsistent name s t)

  -- The constructor leaves a consistent node when it returns, whatever the port and the default.
  pub construct-IsConsistent :
      (api : Api) (port : Option String) (default_port_value : String) (s t : State M)
      → construct e api port default_port_value s ≡ (done tt, t)
      → IsConsistent t
  unfolding construct
  construct-IsConsistent api port d s t h = ground (
    arith,
    use_port-IsConsistent api.is_blackboard_pointer port d (record s { node = members }) t,
  )

  -- A consistent node that is ticked when idle, with a message and a name that is not empty, and
  -- where a publisher can be made, publishes the message to the topic that the port names then, if
  -- the port is a blackboard entry, and else to its own; it returns SUCCESS and stays consistent.
  pub tick_publishes :
      (msg : M) (topic : String) (s : State M)
      → IsConsistent s
      → s.status ≡ idle
      → e.make_publisher ≡ done tt
      → e.set_message ≡ done (some msg)
      → topic
        ≡ (if s.topic_name_may_change then get_or e.topic_name_input "" else s.prev_topic_name)
      → topic ≢ ""
      → let (o, t) = tick e s in
        (o ≡ done success) × (t.published ≡ (topic, msg) ∷ s.published) × IsConsistent t
  unfolding tick refresh_publisher create_publisher send publish
  tick_publishes msg topic s c first made given named some_topic = ground (
    arith,
    eq_iff topic "",
    eq_iff s.prev_topic_name topic,
    eq_iff s.prev_topic_name (get_or e.topic_name_input ""),
  )

  -- A consistent node with no publisher yet, ticked while the blackboard has no name for it, or an
  -- empty one, and with a message to send, reads through the null pointer `publisher_`.
  tick_unnamed_faults :
      (msg : M) (s : State M)
      → IsConsistent s
      → s.publisher ≡ none
      → get_or e.topic_name_input "" ≡ ""
      → e.set_message ≡ done (some msg)
      → (tick e s).0 ≡ faults null_pointer
  unfolding tick refresh_publisher create_publisher send publish
  tick_unnamed_faults msg s c fresh unnamed given =
      ground (arith, eq_iff s.prev_topic_name (get_or e.topic_name_input ""))
