-- ===== src/TopicPubNode/Life.antt =====
-- What happens to a RosTopicPubNode over time: the tree ticks it, and the base class stores the status
-- that `tick` returned, leaves it when `tick` throws, and sets IDLE on a reset.
mod Tests
use behavior_tree_ros.TopicPubNode.{
  State, Env, construct, tick, refresh_publisher, create_publisher, send, publish,
}
use behavior_tree_ros.TopicPubNode.Topics.{IsConsistent, construct-IsConsistent, tick_publishes}
use behavior_tree_ros.Ros.{Api, NodeStatus, idle, success}
use behavior_tree_ros.Program.{Exception, Outcome, done, throws, faults, NeverFaults, is_fault}
use behavior_tree_ros.Prelude.{
  String, Option, Bool, some, none, ◌≡◌, ◌≢◌, true, false, ◌∷◌, if◌then◌else◌, get_or, str_eq, not,
  ◌&&◌, is_some, subst, ap, arith, eq_iff,
}

module _ {M : Type 0} where
  abbrev pub set_status : NodeStatus → State M → State M
  set_status v s = record s { node = record (s.node) { status = v } }

  pub data Step (s : State M) : State M → Type 0 where
    ticks :
        (e : Env M) (v : NodeStatus) (t : State M)
        → tick e s ≡ (done v, t)
        → Step s (set_status v t)
    fails : (e : Env M) (x : Exception) (t : State M) → tick e s ≡ (throws x, t) → Step s t
    resets : Step s (set_status idle s)

  pub data Reach (s : State M) : State M → Type 0 where
    here : Reach s s
    next : {t u : State M} → Reach s t → Step t u → Reach s u

  tick-IsConsistent : (e : Env M) (s : State M) → IsConsistent s → IsConsistent (tick e s).1
  unfolding tick refresh_publisher create_publisher send publish
  tick-IsConsistent e s c = record {
    matches = λ h. ground (arith, c.matches);
    unnamed = λ h. ground (arith, c.unnamed);
    may_change = λ h. ground (arith, c.may_change);
  }

  set_status-IsConsistent :
      (v : NodeStatus) (s : State M) → IsConsistent s → IsConsistent (set_status v s)
  set_status-IsConsistent v s c = record {
    matches = c.matches;
    unnamed = c.unnamed;
    may_change = c.may_change;
  }

  Step-IsConsistent : {s t : State M} → Step s t → IsConsistent s → IsConsistent t
  Step-IsConsistent {s} (ticks e v t h) c =
      set_status-IsConsistent v t (subst IsConsistent (ap (λ r. r.1) h) (tick-IsConsistent e s c))
  Step-IsConsistent {s} (fails e x t h) c =
      subst IsConsistent (ap (λ r. r.1) h) (tick-IsConsistent e s c)
  Step-IsConsistent {s} resets c = set_status-IsConsistent idle s c

  Reach-IsConsistent : {s t : State M} → Reach s t → IsConsistent s → IsConsistent t
  Reach-IsConsistent here c = c
  Reach-IsConsistent (next r st) c = Step-IsConsistent st (Reach-IsConsistent r c)

  -- However a node was constructed, ticked and reset, also by ticks that threw: a tick when it is
  -- idle, with a message and a name that is not empty, and where a publisher can be made, publishes
  -- the message to the topic that the port names then, if the port is a blackboard entry, and else
  -- to its own, and returns SUCCESS.
  pub published_throughout :
      (made e : Env M) (api : Api) (port : Option String) (default_port_value : String)
      (s t u : State M) (msg : M) (topic : String)
      → construct made api port default_port_value s ≡ (done tt, t)
      → Reach t u
      → u.status ≡ idle
      → e.make_publisher ≡ done tt
      → e.set_message ≡ done (some msg)
      → topic
        ≡ (if u.topic_name_may_change then get_or e.topic_name_input "" else u.prev_topic_name)
      → topic ≢ ""
      → let (o, v) = tick e u in (o ≡ done success) × (v.published ≡ (topic, msg) ∷ u.published)
  published_throughout made e api port default_port_value s t u msg topic built r on publisher given
        named some_topic =
      let c =
        Reach-IsConsistent r (construct-IsConsistent made api port default_port_value s t built) in
      let p = tick_publishes e msg topic u c on publisher given named some_topic in (p.0, p.1)

  -- Is there a message to send?
  abbrev pub sends : Outcome (Option M) → Bool
  sends (done m) = is_some m
  sends (throws x) = false
  sends (faults f) = false

  -- However a node was constructed, ticked and reset, and where making a publisher and `setMessage`
  -- have no undefined behaviour: a tick has undefined behaviour exactly if the node has no
  -- publisher yet, the blackboard has no name for it, or an empty one, and there is a message to
  -- send.
  pub faults_exactly_unnamed :
      (made e : Env M) (api : Api) (port : Option String) (default_port_value : String)
      (s t u : State M)
      → construct made api port default_port_value s ≡ (done tt, t)
      → Reach t u
      → NeverFaults e.make_publisher
      → NeverFaults e.set_message
      → is_fault (tick e u).0 ≡ (
          not (is_some u.publisher)
          && str_eq (get_or e.topic_name_input "") ""
          && sends e.set_message)
  unfolding tick refresh_publisher create_publisher send publish
  faults_exactly_unnamed made e api port default_port_value s t u built r publisher given =
      let c =
        Reach-IsConsistent r (construct-IsConsistent made api port default_port_value s t built) in
      ground (
        arith,
        c.unnamed,
        c.may_change,
        eq_iff u.prev_topic_name (get_or e.topic_name_input ""),
        eq_iff (get_or e.topic_name_input "") "",
      )
