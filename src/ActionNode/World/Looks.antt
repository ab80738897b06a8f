-- ===== src/ActionNode/World/Looks.antt =====
-- What a member function of a RosActionNode does to its client: nothing, or one look into the registry.
use behavior_tree_ros.ActionNode.World.SameClients.{
  SameClient, halt-SameClient, tick_connected-SameClient,
}
use behavior_tree_ros.ActionNode.{Env, State}
use behavior_tree_ros.ActionNode.Cancel.{halt}
use behavior_tree_ros.Prelude.{
  Option, Bool, none, some, ◌≡◌, true, false, arith, String, ◌⊎◌, inl, ◌<>◌, inr, get_or,
  Bool-cases, if◌then◌else◌, is_some, refl, not, ◌&&◌, str_eq,
}
use behavior_tree_ros.Ros.{Api, NodeStatus, failure}
use behavior_tree_ros.Registry.{acquire}
use behavior_tree_ros.ActionNode.Tick.{refresh_client, tick, tick_connected}
use behavior_tree_ros.ActionNode.Client.{create_client, construct, use_port, members}
use behavior_tree_ros.Program.{
  Outcome-cases, Outcome, continue, done, throws, faults, Program, ◌>>◌, pure, ◌>>=◌, gets, when,
  ignore,
}
use behavior_tree_ros.RosNodeParams.{RosNodeParams}
use behavior_tree_ros.ActionNode.Client.Naming.{create_client-Named}

module _ {G R : Type 0} (full : String) where
  -- A look at a name under this ROS node, with what it leaves in the registry.
  pub record LooksUp (s t : State G R) : Type 0 where
    pub found :
        (t.client_instance
          ≡ (acquire (full <> "/" <> t.action_name) s.client_instance s.registry).0)
        × (t.registry ≡ (acquire (full <> "/" <> t.action_name) s.client_instance s.registry).1)

  abbrev pub Looks : State G R → State G R → Type 0
  Looks s t = SameClient s t ⊎ LooksUp s t

  pub Looks-SameClient : (s t u : State G R) → Looks s t → SameClient t u → Looks s u
  Looks-SameClient s t u (inl p) q = inl (ground (arith, p, q))
  Looks-SameClient s t u (inr p) q = inr (record { found = ground (arith, p.found, q) })

module _ {G F R : Type 0} (api : Api) (full : String) (e : Env G F R) where
  create_client-Looks :
      (name : String) (s : State G R)
      → (e.ros_node ≡ none) ⊎ (e.ros_node ≡ some full)
      → Looks full s (create_client e name s).1
  unfolding create_client
  create_client-Looks name s (inl gone) = inl (ground (arith, gone))
  create_client-Looks name s (inr alive) = elim (Outcome-cases e.make_instance) [
    | inl (_, made) ↦ ground (arith, alive, made)
    | inr failed ↦ ground (arith, alive, failed)
  ]

  refresh_client-Looks :
      (s : State G R)
      → (e.ros_node ≡ none) ⊎ (e.ros_node ≡ some full)
      → Looks full s (refresh_client api e s).1
  unfolding refresh_client
  refresh_client-Looks s belongs =
      ground (arith, create_client-Looks (get_or e.action_name_input "") s belongs)

  connected-Looks :
      (r : Outcome (Unit {0}) × State G R) (s : State G R)
      → Looks full s r.1
      → Looks full s (continue r (λ _. tick_connected api e)).1
  connected-Looks (done _, t) s looked =
      Looks-SameClient full s t (tick_connected api e t).1 looked
        (tick_connected-SameClient api e t)
  connected-Looks (throws x, t) s looked = looked
  connected-Looks (faults u, t) s looked = looked

  either-Looks :
      (b : Bool) (m n : Program (State G R) NodeStatus) (s : State G R)
      → Looks full s (m s).1
      → Looks full s (n s).1
      → Looks full s ((if b then m else n) s).1
  either-Looks true m n s p q = p
  either-Looks false m n s p q = q

  pub tick-Looks :
      (s : State G R)
      → (e.ros_node ≡ none) ⊎ (e.ros_node ≡ some full)
      → Looks full s (tick api e s).1
  unfolding tick
  tick-Looks s belongs =
      either-Looks e.rclcpp_ok (refresh_client api e >> tick_connected api e)
        (halt e >> pure failure) s
        (connected-Looks (refresh_client api e s) s (refresh_client-Looks s belongs))
        (inl (ground (arith, halt-SameClient e s)))

  -- The end of the constructor, which looks up the name of the parameters.
  abbrev use_default : RosNodeParams → Program (State G R) (Unit {0})
  use_default p = do
    has_client ← gets λ s. is_some s.client_instance
    when (not has_client && not (str_eq p.default_port_value ""))
        (ignore (create_client e p.default_port_value))

  use_default-Looks :
      (p : RosNodeParams) (t : State G R)
      → (e.ros_node ≡ none) ⊎ (e.ros_node ≡ some full)
      → (is_some t.client_instance ≡ true → SameClient t (use_default p t).1)
        × Looks full t (use_default p t).1
  use_default-Looks p t belongs = (
    λ has. ground (arith, has),
    ground (arith, create_client-Looks p.default_port_value t belongs),
  )

  SameClient-Looks : (s t u : State G R) → SameClient s t → Looks full t u → Looks full s u
  SameClient-Looks s t u p (inl q) = inl (ground (arith, p, q))
  SameClient-Looks s t u p (inr q) = inr (record { found = ground (arith, p, q.found) })

  default-Looks :
      (p : RosNodeParams) (r : Outcome (Unit {0}) × State G R) (s : State G R)
      → (e.ros_node ≡ none) ⊎ (e.ros_node ≡ some full)
      → Looks full s r.1
      → (r.0 ≡ done tt → is_some r.1.client_instance ≡ false → SameClient s r.1)
      → Looks full s (continue r (λ _. use_default p)).1
  default-Looks p (done _, t) s belongs looked same =
      elim (Bool-cases (is_some t.client_instance)) [
        | inl has ↦
            Looks-SameClient full s t (use_default p t).1 looked
              ((use_default-Looks p t belongs).0 has)
        | inr has_none ↦
            SameClient-Looks s t (use_default p t).1 (same refl has_none)
              (use_default-Looks p t belongs).1
      ]
  default-Looks p (throws x, t) s belongs looked same = looked
  default-Looks p (faults u, t) s belongs looked same = looked

  use_port-Looks :
      (port : Option String) (s : State G R)
      → (e.ros_node ≡ none) ⊎ (e.ros_node ≡ some full)
      → let (o, t) = use_port api e port s in
        Looks full s t × (o ≡ done tt → is_some t.client_instance ≡ false → SameClient s t)
  unfolding use_port
  use_port-Looks none s belongs = (inl (ground arith), λ h off. ground arith)
  use_port-Looks (some port) s belongs = (
    ground (arith, create_client-Looks port s belongs),
    λ h off. ground (arith, h, off, create_client-Named e port s),
  )

  pub construct-Looks :
      (port : Option String) (p : RosNodeParams) (s : State G R)
      → (e.ros_node ≡ none) ⊎ (e.ros_node ≡ some full)
      → Looks full (record s { node = members p }) (construct api e port p s).1
  unfolding construct
  construct-Looks port p s belongs =
      let s1 : State G R = record s { node = members p } in
      let first = use_port-Looks port s1 belongs in
      default-Looks p (use_port api e port s1) s1 belongs first.0 first.1
