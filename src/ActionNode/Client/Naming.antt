-- ===== src/ActionNode/Client/Naming.antt =====
-- Which action server a RosActionNode talks to, and how `createClient` fails.
use behavior_tree_ros.Prelude.{
  Option, String, ◌≡◌, Bool, if◌then◌else◌, some, str_eq, false, ◌<>◌, is_some, true, none, ◌≢◌,
  get_or, arith, Option-cases, ◌||◌, eq_iff, inl, inr, ◌⊎◌,
}
use behavior_tree_ros.Ros.{Api, idle}
use behavior_tree_ros.RosNodeParams.{RosNodeParams, went_out_of_scope}
use behavior_tree_ros.Program.{throws, runtime_error, Outcome, faults, done}
use behavior_tree_ros.ActionNode.{Env, State}
use behavior_tree_ros.ActionNode.Client.{create_client, use_port, members, construct}
use behavior_tree_ros.ActionNode.Tick.{refresh_client}
use behavior_tree_ros.Registry.{find}
use behavior_tree_ros.Registry.Sharing.{find-acquire_self}

module _ {G F R : Type 0} (e : Env G F R) where
  -- `createClient` throws for an empty name and for a node that is gone, and changes nothing then.
  create_client_refuses :
      (name : String) (s : State G R)
      → (name ≡ "") ⊎ (e.ros_node ≡ none)
      → create_client e name s ≡ (
        throws
            (runtime_error (if str_eq name "" then "action_name is empty" else went_out_of_scope)),
        s,
      )
  unfolding create_client
  create_client_refuses name s bad = ground (arith, eq_iff name "")

  -- `createClient` that returns while the ROS node is alive has taken the name and the key, holds
  -- the instance that the registry then has under that key, says whether the server was found, and
  -- leaves the status alone.
  create_client_connects :
      (name full : String) (found : Bool) (s t : State G R)
      → e.ros_node ≡ some full
      → create_client e name s ≡ (done found, t)
      → (t.action_name ≡ name)
        × (t.action_client_key ≡ full <> "/" <> name)
        × (is_some t.client_instance ≡ true)
        × (find (full <> "/" <> name) t.registry.entries ≡ t.client_instance)
        × (found ≡ e.server_found)
        × (t.status ≡ s.status)
  unfolding create_client
  create_client_connects name full found s t alive h =
      ground (arith, find-acquire_self (full <> "/" <> name) s.client_instance s.registry)

  -- What a `createClient` that returns leaves behind.
  abbrev pub Named : String → State G R → Outcome Bool × State G R → Type 0
  Named name s (done found, t) =
      (t.action_name ≡ name)
      × (is_some t.client_instance ≡ true)
      × (t.action_name_should_be_checked ≡ s.action_name_should_be_checked)
      × (name ≢ "")
  Named name s (throws x, t) = Unit {0}
  Named name s (faults u, t) = Unit {0}

  pub create_client-Named : (name : String) (s : State G R) → Named name s (create_client e name s)
  unfolding create_client
  create_client-Named name s = elim (Option-cases e.ros_node) [
    | inl gone ↦ ground (arith, eq_iff name "")
    | inr (full, alive) ↦ ground (
      arith,
      eq_iff name "",
      find-acquire_self (full <> "/" <> name) s.client_instance s.registry,
    )
  ]

-- The name that the constructor should use: that of the port if it is a static text, else that of
-- the parameters, if there is one.
abbrev pub chosen_name : Api → Option String → String → Option String
chosen_name api none default = if str_eq default "" then none else some default
chosen_name api (some port) default =
    if api.is_blackboard_pointer port || str_eq port ""
    then (if str_eq default "" then none else some default)
    else some port

abbrev is_pointer : Api → Option String → Bool
is_pointer api none = false
is_pointer api (some port) = api.is_blackboard_pointer port

module _ {G F R : Type 0} (api : Api) (e : Env G F R) where
  -- Where the empty text is no blackboard pointer: a constructor that returns has made a client for
  -- the chosen name, or has none where no name is given; the name is looked up again at a tick
  -- exactly if the port is a blackboard entry.
  construct_chooses :
      (port : Option String) (p : RosNodeParams) (s t : State G R)
      → api.is_blackboard_pointer "" ≡ false
      → construct api e port p s ≡ (done tt, t)
      → (is_some t.client_instance ≡ is_some (chosen_name api port p.default_port_value))
        × (t.action_name ≡ get_or (chosen_name api port p.default_port_value) "")
        × (t.action_name_should_be_checked ≡ is_pointer api port)
  unfolding construct use_port
  construct_chooses none p s t sane h =
      let n = p.default_port_value in
      let s1 : State G R = record s { node = members p } in
      ground (arith, eq_iff n "", create_client-Named e n s1)
  construct_chooses (some port) p s t sane h =
      let n = p.default_port_value in
      let s1 : State G R = record s { node = members p } in
      let s2 : State G R = record s1 {
        node = record (s1.node) { action_name_should_be_checked = true };
      } in
      ground (
        arith,
        eq_iff n "",
        eq_iff port "",
        create_client-Named e n s1,
        create_client-Named e n s2,
        create_client-Named e port s1,
      )

  -- The first tick of a goal goes to the action server that the port names at that time: after a
  -- look that returns, an idle node whose port is a blackboard entry has that name, and it either
  -- was left as it was or has a client.
  refresh_client_follows_port :
      (s t : State G R)
      → s.status ≡ idle
      → s.action_name_should_be_checked ≡ true
      → refresh_client api e s ≡ (done tt, t)
      → (t.action_name ≡ get_or e.action_name_input "")
        × ((t ≡ s) ⊎ (is_some t.client_instance ≡ true))
  unfolding refresh_client
  refresh_client_follows_port s t first checks h =
      let n = get_or e.action_name_input "" in
      ground (arith, eq_iff s.action_name n, create_client-Named e n s)
