-- ===== src/TopicSubNode/Life/Null.antt =====
-- A tick of a RosTopicSubNode always has an instance to spin.
use behavior_tree_ros.TopicSubNode.{
  Env, World, tick, create_subscriber, refresh_subscriber, answer, check_status, use_instance,
  connect, update, assign, new_instance, spin_some,
}
use behavior_tree_ros.Registry.Sharing.{find-acquire_self}
use behavior_tree_ros.Program.{NeverFaults, Outcome, done, throws, faults, continue, gets, ◌>>=◌}
use behavior_tree_ros.Ros.{Api}
use behavior_tree_ros.Prelude.{
  ℕ, is_some, String, ◌≡◌, ◌<>◌, true, arith, none, Option, Option-cases, get_or, inl, some, inr,
  refl,
}
use behavior_tree_ros.Registry.{Registry, acquire}

module _ {M : Type 0} (api : Api) (e : Env M) (n : ℕ) where
  -- What returns has an instance, and nothing else is reached.
  abbrev HasInstance : Outcome (Unit {0}) × World M → Type 0
  HasInstance (done r, t) = is_some (t.nodes n).sub_instance ≡ true
  HasInstance (throws x, t) = Unit {0}
  HasInstance (faults u, t) = ⊥

  use_instance-has :
      (o : Option ℕ) (r : Registry) (w : World M)
      → is_some o ≡ true
      → is_some ((use_instance n (o, r) w).nodes n).sub_instance ≡ true
  unfolding use_instance connect
  use_instance-has none r w got = cc
  use_instance-has (some i) r w got = ground arith

  create_subscriber-HasInstance :
      (name : String) (w : World M)
      → NeverFaults e.make_instance
      → HasInstance (create_subscriber api e n name w)
  unfolding create_subscriber
  create_subscriber-HasInstance name w made = elim (Option-cases e.ros_node) [
    | inl z ↦ ground (arith, z)
    | inr (full, z) ↦
        let key = full <> "/" <> name in
        let w1 : World M = update n (λ x. record x { subscriber_key = key }) w in
        let w2 : World M = record w1 {
          instances = assign w1.registry.next_instance new_instance w1.instances;
        } in
        let (o, r) = acquire key none w.registry in
        let got = (find-acquire_self key none w.registry).0 in
        ground (arith, use_instance-has o r w1 got, use_instance-has o r w2 got)
  ]

  refresh_subscriber-HasInstance :
      (name : String) (w : World M)
      → NeverFaults e.make_instance
      → HasInstance (refresh_subscriber api e n name w)
  unfolding refresh_subscriber
  refresh_subscriber-HasInstance name w made =
      let w1 : World M = update n (λ x. record x { sub_instance = none }) w in
      ground (
        arith,
        create_subscriber-HasInstance name w made,
        create_subscriber-HasInstance name w1 made,
      )

  answer-safe :
      (i : ℕ) (w : World M)
      → ((msg : Option M) → NeverFaults (e.on_tick msg))
      → NeverFaults (answer api e n (some i) w).0
  unfolding answer check_status
  answer-safe i w answered =
      let fine = answered ((spin_some i e.arrived w).nodes n).last_msg in ground (arith, fine)

  spinning-safe :
      (r : Outcome (Unit {0}) × World M)
      → HasInstance r
      → ((msg : Option M) → NeverFaults (e.on_tick msg))
      → NeverFaults (continue r (λ _. gets (λ w. (w.nodes n).sub_instance) >>= answer api e n)).0
  spinning-safe (throws x, t) has answered = refl
  spinning-safe (faults u, t) has answered = elim has [ ]
  spinning-safe (done u, t) has answered = elim (Option-cases (t.nodes n).sub_instance) [
    | inl p ↦ ground (arith, p)
    | inr (i, p) ↦ rw p (answer-safe i t answered)
  ]

  -- A tick has no undefined behaviour in any state of the nodes and the registry, where making an
  -- instance and `onTick` have none: it never spins without an instance.
  tick_never_null :
      (w : World M)
      → NeverFaults e.make_instance
      → ((msg : Option M) → NeverFaults (e.on_tick msg))
      → NeverFaults (tick api e n w).0
  unfolding tick
  tick_never_null w made answered =
      let name = get_or e.topic_name_input "" in
      spinning-safe (refresh_subscriber api e n name w) (refresh_subscriber-HasInstance name w made)
        answered
