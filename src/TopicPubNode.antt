-- ===== src/TopicPubNode.antt =====
-- behaviortree_ros2/include/behaviortree_ros2/bt_topic_pub_node.hpp. A publisher is known by its topic;
-- `published` lists the messages with the topic that they went to, the latest first. The class keeps
-- a shared pointer to the node, which its constructor makes from the weak one.
pub mod Topics
pub mod Life
pub mod Tests
use behavior_tree_ros.Prelude.{
  String, Bool, if◌then◌else◌, List, str_eq, some, ◌||◌, not, ◌∷◌, none, true, false, is_some, ◌&&◌,
  get_or, Option,
}
use behavior_tree_ros.Ros.{NodeStatus, failure, idle, success, is_idle, Api}
use behavior_tree_ros.Program.{
  Outcome, modify, fault, pure, ◌>>◌, ◌>>=◌, when, lift, gets, null_pointer, throw, runtime_error,
  std_logic_error, Program,
}

pub record RosTopicPubNode : Type 0 where
  pub status : NodeStatus
  pub prev_topic_name : String
  pub topic_name_may_change : Bool
  -- the topic of `publisher_`
  pub publisher : Option String

pub record State (M : Type 0) : Type 0 where
  pub node : RosTopicPubNode
  pub open node use *
  pub published : List (String × M)

-- The answers to one call of a member function.
pub record Env (M : Type 0) : Type 0 where
  -- `std::shared_ptr(params.nh)`, which throws where the node is gone
  pub lock_node : Outcome (Unit {0})
  -- `getInput("topic_name", ...)`
  pub topic_name_input : Option String
  -- `node_->create_publisher`
  pub make_publisher : Outcome (Unit {0})
  -- `none` where `setMessage` returns false
  pub set_message : Outcome (Option M)

-- The members before the body of the constructor runs.
abbrev pub members : RosTopicPubNode
members = record {
  status = idle;
  prev_topic_name = "";
  topic_name_may_change = false;
  publisher = none;
}

module _ {M : Type 0} (e : Env M) where
  abbrev update : (RosTopicPubNode → RosTopicPubNode) → Program (State M) (Unit {0})
  update f = modify λ s. record s { node = f (s.node) }

  unfoldable pub create_publisher : String → Program (State M) (Unit {0})
  create_publisher topic_name = do
    when (str_eq topic_name "") (throw (runtime_error "topic_name is empty"))
    lift e.make_publisher
    update λ n. record n { publisher = some topic_name }
    update λ n. record n { prev_topic_name = topic_name }

  -- The default topic, or the exception where there is none.
  unfoldable pub use_default : String → Program (State M) (Unit {0})
  use_default default_port_value =
      if str_eq default_port_value ""
      then throw
          (std_logic_error "Both [topic_name] in the InputPort and the RosNodeParams are empty.")
      else create_publisher default_port_value

  unfoldable pub use_port : (String → Bool) → Option String → String → Program (State M) (Unit {0})
  use_port is_blackboard_pointer none default_port_value = use_default default_port_value
  use_port is_blackboard_pointer (some name) default_port_value =
      if str_eq name "" || str_eq name "__default__placeholder__"
      then use_default default_port_value
      else if not (is_blackboard_pointer name)
      then create_publisher name
      else (update λ n. record n { topic_name_may_change = true })

  -- The constructor, with the port's text in the XML.
  unfoldable pub construct : Api → Option String → String → Program (State M) (Unit {0})
  construct api port default_port_value = do
    lift e.lock_node
    update λ _. members
    use_port api.is_blackboard_pointer port default_port_value

  unfoldable pub refresh_publisher : Program (State M) (Unit {0})
  refresh_publisher = do
    stale ← gets λ s. not (is_some s.publisher) || (is_idle s.status && s.topic_name_may_change)
    let topic_name = get_or e.topic_name_input ""
    same ← gets λ s. str_eq s.prev_topic_name topic_name
    when (stale && not same) (create_publisher topic_name)

  -- `publisher_->publish(msg)`
  unfoldable pub publish : M → Option String → Program (State M) NodeStatus
  publish msg none = fault null_pointer
  publish msg (some topic) = do
    modify λ s. record s { published = (topic, msg) ∷ s.published }
    pure success

  unfoldable pub send : Option M → Program (State M) NodeStatus
  send none s = pure failure s
  send (some msg) s = publish msg s.publisher s

  unfoldable pub tick : Program (State M) NodeStatus
  tick = do refresh_publisher; lift e.set_message >>= send
