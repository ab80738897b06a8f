-- ===== src/TopicSubNode.antt =====
-- behaviortree_ros2/include/behaviortree_ros2/bt_topic_sub_node.hpp. The nodes share subscriber
-- instances, and a message that one of them takes from the executor goes to all, so the state is
-- that of all nodes and instances, each known by a number. A broadcaster is the list of the nodes
-- that are connected to it. An instance that nobody holds stays in the state, and is not spun. A
-- broadcaster has its latest slots first; the order in which they run does not matter, as each writes
-- to its own node.
pub mod Deliveries
pub mod Slots
pub mod Life
pub mod Tests
use behavior_tree_ros.Prelude.{
  Option, String, false, if◌then◌else◌, ◌∷◌, some, get_or, ◌==◌, str_eq, ◌||◌, is_some, not, ◌<>◌,
  ◌&&◌, List, ℕ, Bool, none, [],
}
use behavior_tree_ros.Ros.{Api, NodeStatus, Logger, node_logger, named_logger}
use behavior_tree_ros.Registry.{Registry, must_create, acquire}
use behavior_tree_ros.Program.{
  Program, Outcome, throw, pure, fault, ◌>>◌, ◌>>=◌, runtime_error, when, std_logic_error, modify,
  gets, null_pointer, lift,
}
use behavior_tree_ros.RosNodeParams.{went_out_of_scope}

pub record RosTopicSubNode (M : Type 0) : Type 0 where
  pub sub_instance : Option ℕ
  pub last_msg : Option M
  pub topic_name : String
  -- the instance of `signal_connection_`
  pub signal_connection : Option ℕ
  pub subscriber_key : String

pub record SubscriberInstance (M : Type 0) : Type 0 where
  pub broadcaster : List ℕ
  pub latest_msg : Option M

pub record World (M : Type 0) : Type 0 where
  pub nodes : ℕ → RosTopicSubNode M
  pub instances : ℕ → SubscriberInstance M
  pub registry : Registry

-- The answers to one call of a member function.
pub record Env (M : Type 0) : Type 0 where
  -- `node_.lock()`, and its `get_fully_qualified_name()`
  pub ros_node : Option String
  -- `getInput("topic_name", ...)`
  pub topic_name_input : Option String
  -- the constructor of `SubscriberInstance`
  pub make_instance : Outcome (Unit {0})
  -- the messages that `spin_some` takes, the earliest first
  pub arrived : List M
  -- the virtual functions
  pub on_tick : Option M → Outcome NodeStatus
  pub latch_last_message : Bool

-- `logger()`: the node's, or one of the wrapper's name where the node is gone.
unfoldable pub logger : {M : Type 0} → Env M → Logger
logger e = elim e.ros_node [
  | some fully_qualified ↦ node_logger fully_qualified
  | none ↦ named_logger "RosTopicSubNode"
]

abbrev pub default_latch_last_message : Bool
default_latch_last_message = false

-- An array with one cell written.
abbrev pub assign : {A : Type 0} → ℕ → A → (ℕ → A) → ℕ → A
assign k v f j = if j == k then v else f j

-- The members before the body of the constructor runs.
abbrev pub members : {M : Type 0} → RosTopicSubNode M
members = record {
  sub_instance = none;
  last_msg = none;
  topic_name = "";
  signal_connection = none;
  subscriber_key = "";
}

abbrev pub new_instance : {M : Type 0} → SubscriberInstance M
new_instance = record { broadcaster = []; latest_msg = none }

-- The latest slot of a node leaves the broadcaster, which has the latest slots first.
unfoldable pub remove : ℕ → List ℕ → List ℕ
remove n [] = []
remove n (m ∷ ms) = let rest = remove n ms in if m == n then ms else m ∷ rest

-- The message of an instance that has one takes the place of the node's.
abbrev pub newer : {M : Type 0} → Option M → Option M → Option M
newer none own = own
newer (some msg) own = some msg

module _ {M : Type 0} where
  abbrev pub update : ℕ → (RosTopicSubNode M → RosTopicSubNode M) → World M → World M
  update n f w = record w { nodes = assign n (f (w.nodes n)) w.nodes }

  -- The slot of each connected node: `last_msg_ = msg`.
  unfoldable pub notify : M → List ℕ → (ℕ → RosTopicSubNode M) → ℕ → RosTopicSubNode M
  notify msg [] nodes = nodes
  notify msg (n ∷ ns) nodes =
      notify msg ns (assign n (record (nodes n) { last_msg = some msg }) nodes)

  -- The callback of the subscription.
  unfoldable pub broadcast : ℕ → World M → M → World M
  broadcast i w msg = record w {
    nodes = notify msg ((w.instances i).broadcaster) w.nodes;
    instances = assign i (record (w.instances i) { latest_msg = some msg }) w.instances;
  }

  -- `spin_some` of the instance's executor.
  unfoldable pub spin_some : ℕ → List M → World M → World M
  spin_some i [] w = w
  spin_some i (msg ∷ msgs) w = spin_some i msgs (broadcast i w msg)

  -- The end of `createSubscriber`: take the message that came before, and connect.
  unfoldable pub connect : ℕ → ℕ → World M → World M
  connect n i w =
      let old = w.instances i in
      record w {
        nodes =
            assign n
              (record (w.nodes n) {
                sub_instance = some i;
                last_msg = newer old.latest_msg (w.nodes n).last_msg;
                signal_connection = some i;
              })
              w.nodes;
        instances = assign i (record old { broadcaster = n ∷ old.broadcaster }) w.instances;
      }

  unfoldable pub use_instance : ℕ → Option ℕ × Registry → World M → World M
  use_instance n (none, r) w = record w { registry = r }
  use_instance n (some i, r) w = connect n i (record w { registry = r })

  -- `signal_connection_.disconnect()`
  abbrev pub disconnect : ℕ → Option ℕ → World M → World M
  disconnect n none w = w
  disconnect n (some i) w = record w {
    instances =
        assign i (record (w.instances i) { broadcaster = remove n ((w.instances i).broadcaster) })
          w.instances;
  }

  -- The destructor.
  unfoldable pub destroy : ℕ → World M → World M
  destroy n w = disconnect n (w.nodes n).signal_connection w

module _ {M : Type 0} (api : Api) (e : Env M) (n : ℕ) where
  -- `node_.lock()`, or the exception where the node is gone.
  abbrev lock_node : Program (World M) String
  lock_node = elim e.ros_node [
    | none ↦ throw (runtime_error went_out_of_scope)
    | some fully_qualified ↦ pure fully_qualified
  ]

  unfoldable pub create_subscriber : String → Program (World M) (Unit {0})
  create_subscriber name = do
    when (str_eq name "") (throw (runtime_error "topic_name is empty"))
    has_instance ← gets λ w. is_some (w.nodes n).sub_instance
    when has_instance (throw (runtime_error "Can't call createSubscriber more than once"))
    fully_qualified ← lock_node
    let key = fully_qualified <> "/" <> name
    modify (update n λ x. record x { subscriber_key = key })
    must ← gets λ w. must_create key none w.registry
    when must (do
      lift e.make_instance
      modify λ w. record w { instances = assign w.registry.next_instance new_instance w.instances })
    modify λ w. use_instance n (acquire key none w.registry) w
    modify (update n λ x. record x { topic_name = name })

  unfoldable pub use_default : String → Program (World M) (Unit {0})
  use_default default_port_value =
      if str_eq default_port_value ""
      then throw
          (std_logic_error "Both [topic_name] in the InputPort and the RosNodeParams are empty.")
      else create_subscriber default_port_value

  unfoldable pub use_port : Option String → String → Program (World M) (Unit {0})
  use_port none default_port_value = use_default default_port_value
  use_port (some name) default_port_value =
      if str_eq name "" || str_eq name "__default__placeholder__"
      then use_default default_port_value
      else when (not (api.is_blackboard_pointer name)) (create_subscriber name)

  -- The constructor, with the port's text in the XML.
  unfoldable pub construct : Option String → String → Program (World M) (Unit {0})
  construct port default_port_value = do
    modify (update n λ x. members)
    use_port port default_port_value

  -- The λ `CheckStatus`.
  unfoldable pub check_status : NodeStatus → Program (World M) NodeStatus
  check_status status =
      if api.is_status_completed status
      then pure status
      else throw
          (std_logic_error "RosTopicSubNode: the callback must returneither SUCCESS or FAILURE")

  -- Subscribe to the topic that the port names, where it is another.
  unfoldable pub refresh_subscriber : String → Program (World M) (Unit {0})
  refresh_subscriber name = do
    same ← gets λ w. str_eq name (w.nodes n).topic_name
    when (not (str_eq name "") && not (str_eq name "__default__placeholder__") && not same)
        (modify (update n λ x. record x { sub_instance = none }))
    has_instance ← gets λ w. is_some (w.nodes n).sub_instance
    when (not has_instance) (create_subscriber name)

  unfoldable pub answer : Option ℕ → Program (World M) NodeStatus
  answer none = fault null_pointer
  answer (some i) = do
    modify (spin_some i e.arrived)
    msg ← gets λ w. (w.nodes n).last_msg
    status ← lift (e.on_tick msg) >>= check_status
    when (not e.latch_last_message) (modify (update n λ x. record x { last_msg = none }))
    pure status

  unfoldable pub tick : Program (World M) NodeStatus
  tick = do
    refresh_subscriber (get_or e.topic_name_input "")
    i ← gets λ w. (w.nodes n).sub_instance
    answer i
