-- ===== src/ActionNode/World/Shared.antt =====
-- Which nodes of a process have the same action client.
mod Tests
use behavior_tree_ros.ActionNode.{Env, State}
use behavior_tree_ros.ActionNode.World.{
  World, local, put, IsHeld, Step, Reach, no_nodes, constructs, ticks, tick_throws, halts,
  halt_throws, drops, here, next,
}
use behavior_tree_ros.ActionNode.World.Looks.{
  Looks, LooksUp, Looks-SameClient, tick-Looks, construct-Looks,
}
use behavior_tree_ros.ActionNode.World.SameClients.{SameClient, halt-SameClient}
use behavior_tree_ros.ActionNode.Runs.{set_status}
use behavior_tree_ros.ActionNode.Client.{members}
use behavior_tree_ros.Registry.{Registry, find, acquire}
use behavior_tree_ros.Registry.Sharing.{
  IsConsistent, acquire-IsConsistent, find-acquire_self, find-acquire_ne, acquire_found,
}
use behavior_tree_ros.RosNodeParams.{RosNodeParams}
use behavior_tree_ros.Ros.{Api, NodeStatus, idle}
use behavior_tree_ros.Prelude.{
  ℕ, String, List, Option, Bool, some, none, ◌≡◌, ◌↔◌, ◌<>◌, ◌==◌, true, contains, arith, inl, inr,
  eq_iff, Bool-cases, str_eq, refl, if◌then◌else◌, subst, sym,
}

-- An entry whose instance is held stays.
find-acquire_held :
    (k key : String) (own : Option ℕ) (r : Registry) (j : ℕ)
    → find k r.entries ≡ some j
    → contains r.held j ≡ true
    → find k (acquire key own r).1.entries ≡ some j
find-acquire_held k key own r j listed alive = elim (Bool-cases (str_eq k key)) [
  | inl same ↦
      let at_key : find key r.entries ≡ some j = ground (arith, eq_iff k key, same, listed) in
      ground (arith, acquire_found key own r j at_key alive, listed)
  | inr apart ↦
      ground
        (arith, find-acquire_ne k key own r (λ h. ground (arith, eq_iff k key, h, apart)), listed)
]

module _ {R : Type 0} (ros_name : ℕ → String) where
  abbrev pub key_of : World R → ℕ → String
  key_of w n = ros_name n <> "/" <> (w.nodes n).action_name

  -- Each instance that a node has is the one that the registry has under the node's key.
  pub record IsListed (w : World R) : Type 0 where
    pub consistent : IsConsistent w.registry
    pub listed :
        (n i : ℕ)
        → (w.nodes n).client_instance ≡ some i
        → find (key_of w n) w.registry.entries ≡ some i

-- The entries of the world whose instances are held are there.
abbrev IsKept : {R : Type 0} → List ℕ → World R → Registry → Type 0
IsKept held w r =
    (k : String) (j : ℕ)
    → find k w.registry.entries ≡ some j
    → contains held j ≡ true
    → find k r.entries ≡ some j

module _ {G R : Type 0} (ros_name : ℕ → String) (n : ℕ) (held : List ℕ) (w : World R) where
  abbrev IsOwn : State G R → Type 0
  IsOwn t =
      (i : ℕ)
      → t.client_instance ≡ some i
      → find (ros_name n <> "/" <> t.action_name) t.registry.entries ≡ some i

  put-IsListed :
      (t : State G R)
      → IsHeld w held
      → IsListed ros_name w
      → IsConsistent t.registry
      → IsKept held w t.registry
      → IsOwn t
      → IsListed ros_name (put n t w)
  put-IsListed t is_held l c kept own = record {
    consistent = c;
    listed = λ m i h. elim (Bool-cases (m == n)) [
      | inl same ↦ ground (arith, same, h, own i)
      | inr other ↦
          ground (arith, other, h, l.listed m i, is_held m i, kept (key_of ros_name w m) i)
    ];
  }

  -- A call that leaves the client alone or looks it up, from a node with the client of this one.
  looked-IsListed :
      (s t : State G R)
      → IsHeld w held
      → IsListed ros_name w
      → s.registry ≡ record (w.registry) { held = held }
      → IsOwn s
      → Looks (ros_name n) s t
      → IsListed ros_name (put n t w)
  looked-IsListed s t is_held l given own (inl p) =
      put-IsListed t is_held l
        (record {
          fresh = λ k i h. ground (arith, p, given, h, l.consistent.fresh k i);
          apart = λ j k i h g. ground (arith, p, given, h, g, l.consistent.apart j k i);
        })
        (λ k j h alive. ground (arith, p, given, h)) (λ i h. ground (arith, p, h, own i))
  looked-IsListed s t is_held l given own (inr p) =
      let key = ros_name n <> "/" <> t.action_name in
      let before : IsConsistent s.registry = record {
        fresh = λ k i h. ground (arith, given, h, l.consistent.fresh k i);
        apart = λ j k i h g. ground (arith, given, h, g, l.consistent.apart j k i);
      } in
      let after = acquire-IsConsistent key s.client_instance s.registry before in
      put-IsListed t is_held l (subst IsConsistent (sym p.found.1) after)
        (λ k j h alive.
          subst (λ r. find k r.entries ≡ some j) (sym p.found.1)
            (find-acquire_held k key s.client_instance s.registry j (ground (arith, given, h))
              (ground (arith, given, alive))))
        (λ i h. ground (arith, p.found, h, find-acquire_self key s.client_instance s.registry))

module _ {G R : Type 0} (ros_name : ℕ → String) where
  -- A call of the node itself.
  called-IsListed :
      (n : ℕ) (held : List ℕ) (w : World R) (t : State G R)
      → IsHeld w held
      → IsListed ros_name w
      → Looks (ros_name n) (local n held w) t
      → IsListed ros_name (put n t w)
  called-IsListed n held w t is_held l =
      looked-IsListed ros_name n held w (local n held w) t is_held l refl (λ i h. l.listed n i h)

module _ {G R : Type 0} where
  status-SameClient : (v : NodeStatus) (t : State G R) → SameClient t (set_status v t)
  status-SameClient v t = ground arith

module _ {R : Type 0} (ros_name : ℕ → String) where
  no_nodes-IsListed : (p : RosNodeParams) → IsListed ros_name (no_nodes {R = R} p)
  unfolding find
  no_nodes-IsListed p = record {
    consistent = record { fresh = λ k i h. cc; apart = λ j k i h g. cc };
    listed = λ n i h. cc;
  }

module _ {G F R : Type 0} (api : Api) (ros_name : ℕ → String) where
  Step-IsListed :
      {w u : World R} → Step G F R api ros_name w u → IsListed ros_name w → IsListed ros_name u
  Step-IsListed {w} (constructs n held e port p t unbuilt is_held belongs built) l =
      let s : State G R = record (local n held w) { node = members p } in
      looked-IsListed ros_name n held w s t is_held l refl (λ i h. cc)
        (subst (λ r. Looks (ros_name n) s r.1) built
          (construct-Looks api (ros_name n) e port p (local n held w) belongs))
  Step-IsListed {w} (ticks n held e v t is_held belongs ticked) l =
      called-IsListed ros_name n held w (set_status v t) is_held l (
        Looks-SameClient (ros_name n) (local n held w) t (set_status v t)
          (subst (λ r. Looks (ros_name n) (local n held w) r.1) ticked
            (tick-Looks api (ros_name n) e (local n held w) belongs))
          (status-SameClient v t))
  Step-IsListed {w} (tick_throws n held e x t is_held belongs thrown) l =
      called-IsListed ros_name n held w t is_held l (
        subst (λ r. Looks (ros_name n) (local n held w) r.1) thrown
          (tick-Looks api (ros_name n) e (local n held w) belongs))
  Step-IsListed {w} (halts n held e t is_held halted) l =
      let kept =
        subst (λ r. SameClient (local n held w) r.1) halted (halt-SameClient e (local n held w)) in
      called-IsListed ros_name n held w (set_status idle t) is_held l (inl (ground (arith, kept)))
  Step-IsListed {w} (halt_throws n held e x t is_held halted) l =
      called-IsListed ros_name n held w t is_held l (
        inl (
          subst (λ r. SameClient (local n held w) r.1) halted (halt-SameClient e (local n held w))))
  Step-IsListed {w} (drops n p) l = record {
    consistent = l.consistent;
    listed = λ m i h. ground (arith, h, l.listed m i);
  }

  Reach-IsListed :
      {w u : World R} → Reach G F R api ros_name w u → IsListed ros_name w → IsListed ros_name u
  Reach-IsListed here l = l
  Reach-IsListed (next r st) l = Step-IsListed st (Reach-IsListed r l)

  -- All RosActionNodes of a process, constructed, ticked, halted and destroyed in any order, by
  -- ticks and halts that may also throw, with one registry that is empty at first and in which an
  -- instance that no node holds has expired: two nodes that have clients have the same one exactly
  -- if the names of their ROS nodes and of their action servers make the same key. The ROS node of
  -- a node keeps its name, or is gone.
  pub clients_shared_by_key :
      (p : RosNodeParams) (w : World R) (m n i j : ℕ)
      → Reach G F R api ros_name (no_nodes p) w
      → (w.nodes m).client_instance ≡ some i
      → (w.nodes n).client_instance ≡ some j
      → (key_of ros_name w m ≡ key_of ros_name w n) ↔ (i ≡ j)
  clients_shared_by_key p w m n i j r has_m has_n =
      let l = Reach-IsListed r (no_nodes-IsListed ros_name p) in
      let a = l.listed m i has_m in
      let b = l.listed n j has_n in
      (
        λ same. ground (arith, a, b, same),
        λ same.
            l.consistent.apart (key_of ros_name w m) (key_of ros_name w n) i a
              (ground (arith, b, same)),
      )
