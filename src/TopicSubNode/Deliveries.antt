-- ===== src/TopicSubNode/Deliveries.antt =====
-- Which messages the nodes of a shared subscriber see.
use behavior_tree_ros.TopicSubNode.{
  notify, broadcast, RosTopicSubNode, World, assign, Env, tick, refresh_subscriber, answer,
  check_status, spin_some,
}
use behavior_tree_ros.Prelude.{
  List, ℕ, Option, ◌∷◌, ◌≡◌, some, if◌then◌else◌, [], contains, arith, refl, get_or, true, none,
  eq_iff,
}
use behavior_tree_ros.Ros.{Api, NodeStatus}
use behavior_tree_ros.Program.{done}

module _ {M : Type 0} where
  pub notify_lem :
      (msg : M) (ns : List ℕ) (f : ℕ → RosTopicSubNode M) (k : ℕ)
      → notify msg ns f k ≡ (if contains ns k then record (f k) { last_msg = some msg } else f k)
  unfolding notify
  notify_lem msg [] f k = refl
  notify_lem msg (n ∷ ns) f k =
      ground (arith, notify_lem msg ns (assign n (record (f n) { last_msg = some msg }) f) k)

  -- The last of some messages, or what there was before.
  abbrev pub latest : List M → Option M → Option M
  latest [] before = before
  latest (m ∷ ms) before = latest ms (some m)

  -- Whoever spins, a node that is connected to the instance has the last message that came, and
  -- every other node keeps its own; the connections stay.
  pub spin_some-latest :
      (i j k : ℕ) (msgs : List M) (w : World M)
      → let t = spin_some i msgs w in
        (t.nodes k ≡ (
          if contains ((w.instances i).broadcaster) k
          then record (w.nodes k) { last_msg = latest msgs (w.nodes k).last_msg }
          else w.nodes k))
        × ((t.instances j).broadcaster ≡ (w.instances j).broadcaster)
  unfolding spin_some broadcast
  spin_some-latest i j k [] w = ground arith
  spin_some-latest i j k (m ∷ ms) w = ground (
    arith,
    notify_lem m ((w.instances i).broadcaster) w.nodes k,
    spin_some-latest i j k ms (broadcast i w m),
    spin_some-latest i i k ms (broadcast i w m),
  )

module _ {M : Type 0} (api : Api) (e : Env M) (n : ℕ) where
  -- A tick of a connected node whose port names no other topic hands `onTick` the last message that
  -- came, or the one that was kept; with a completed answer it returns that, and keeps the message
  -- exactly if it latches.
  pub tick_hands_latest :
      (i : ℕ) (v : NodeStatus) (w : World M)
      → (w.nodes n).sub_instance ≡ some i
      → get_or e.topic_name_input "" ≡ (w.nodes n).topic_name
      → contains ((w.instances i).broadcaster) n ≡ true
      → e.on_tick (latest e.arrived (w.nodes n).last_msg) ≡ done v
      → api.is_status_completed v ≡ true
      → let (o, t) = tick api e n w in
        (o ≡ done v)
        × ((t.nodes n).last_msg
            ≡ (if e.latch_last_message then latest e.arrived (w.nodes n).last_msg else none))
  unfolding tick refresh_subscriber answer check_status
  tick_hands_latest i v w subscribed same connected answered completed = ground (
    arith,
    eq_iff (get_or e.topic_name_input "") (w.nodes n).topic_name,
    spin_some-latest i i n e.arrived w,
  )
