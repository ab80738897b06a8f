-- ===== src/TopicSubNode/Life/Subscribed.antt =====
-- Whoever has a subscriber hears from it.
use behavior_tree_ros.TopicSubNode.Life.{holding}
use behavior_tree_ros.TopicSubNode.{
  World, members, new_instance, destroy, update, use_instance, connect, spin_some, remove, assign,
  RosTopicSubNode, broadcast,
}
use behavior_tree_ros.TopicSubNode.Deliveries.{notify_lem}
use behavior_tree_ros.Registry.{acquire, Registry}
use behavior_tree_ros.Registry.Sharing.{IsConsistent, acquire-IsConsistent, acquire-bounds}
use behavior_tree_ros.Prelude.{
  ℕ, ◌≢◌, ◌≡◌, ◌<◌, String, contains, some, none, ◌∷◌, true, [], refl, Option, ◌≤◌, List, arith,
}

contains-remove : (n m : ℕ) (ms : List ℕ) → n ≢ m → contains (remove m ms) n ≡ contains ms n
unfolding remove
contains-remove n m [] apart = refl
contains-remove n m (k ∷ ms) apart = ground (arith, apart, contains-remove n m ms apart)

module _ {M : Type 0} where
  -- A node that has an instance is connected to it.
  pub record IsSubscribed (w : World M) : Type 0 where
    pub consistent : IsConsistent w.registry
    pub known : (n i : ℕ) → (w.nodes n).sub_instance ≡ some i → i < w.registry.next_instance
    pub connected :
        (n i : ℕ)
        → (w.nodes n).sub_instance ≡ some i
        → (contains ((w.instances i).broadcaster) n ≡ true)
          × ((w.nodes n).signal_connection ≡ some i)

  pub holding-IsSubscribed :
      (held : List ℕ) (w : World M) → IsSubscribed w → IsSubscribed (holding held w)
  holding-IsSubscribed held w s = record {
    consistent = record { fresh = s.consistent.fresh; apart = s.consistent.apart };
    known = s.known;
    connected = s.connected;
  }

  connect-IsSubscribed :
      (n i : ℕ) (w : World M)
      → IsSubscribed w
      → i < w.registry.next_instance
      → IsSubscribed (connect n i w)
  unfolding connect
  connect-IsSubscribed n i w s old = record {
    consistent = s.consistent;
    known = λ k j h. ground (arith, s.known k j);
    connected = λ k j h. ground (arith, s.connected k j);
  }

  registry-IsSubscribed :
      (r : Registry) (w : World M)
      → IsSubscribed w
      → IsConsistent r
      → w.registry.next_instance ≤ r.next_instance
      → IsSubscribed (record w { registry = r })
  registry-IsSubscribed r w s c grown = record {
    consistent = c;
    known = λ k j h. ground (arith, s.known k j, grown);
    connected = s.connected;
  }

  take_instance-IsSubscribed :
      (n : ℕ) (o : Option ℕ) (r : Registry) (w : World M)
      → IsSubscribed (record w { registry = r })
      → ((i : ℕ) → o ≡ some i → i < r.next_instance)
      → IsSubscribed (use_instance n (o, r) w)
  unfolding use_instance
  take_instance-IsSubscribed n none r w s old = s
  take_instance-IsSubscribed n (some i) r w s old =
      connect-IsSubscribed n i (record w { registry = r }) s (old i refl)

  pub use_instance-IsSubscribed :
      (n : ℕ) (key : String) (w : World M)
      → IsSubscribed w
      → IsSubscribed (use_instance n (acquire key none w.registry) w)
  use_instance-IsSubscribed n key w s =
      let (o, r) = acquire key none w.registry in
      let c = acquire-IsConsistent key none w.registry s.consistent in
      take_instance-IsSubscribed n o r w
        (registry-IsSubscribed r w s c (acquire-bounds key none w.registry 0 s.consistent).0)
        (λ i. (acquire-bounds key none w.registry i s.consistent).1)

  -- Changes of a node that leave its connection alone.
  pub update-IsSubscribed :
      (n : ℕ) (f : RosTopicSubNode M → RosTopicSubNode M) (w : World M)
      → (f (w.nodes n)).sub_instance ≡ (w.nodes n).sub_instance
      → (f (w.nodes n)).signal_connection ≡ (w.nodes n).signal_connection
      → IsSubscribed w
      → IsSubscribed (update n f w)
  update-IsSubscribed n f w same_instance same_connection s = record {
    consistent = s.consistent;
    known = λ k j h. ground (arith, s.known k j);
    connected = λ k j h. ground (arith, s.connected k j);
  }

  -- A node that has no instance may be anything else.
  pub free-IsSubscribed :
      (n : ℕ) (f : RosTopicSubNode M → RosTopicSubNode M) (w : World M)
      → (f (w.nodes n)).sub_instance ≡ none
      → IsSubscribed w
      → IsSubscribed (update n f w)
  free-IsSubscribed n f w free s = record {
    consistent = s.consistent;
    known = λ k j h. ground (arith, s.known k j);
    connected = λ k j h. ground (arith, s.connected k j);
  }

  pub new_instance-IsSubscribed :
      (w : World M)
      → IsSubscribed w
      → IsSubscribed
          (record w { instances = assign w.registry.next_instance new_instance w.instances })
  new_instance-IsSubscribed w s = record {
    consistent = s.consistent;
    known = s.known;
    connected = λ k j h. ground (arith, s.known k j, s.connected k j);
  }

  broadcast-IsSubscribed :
      (i : ℕ) (msg : M) (w : World M) → IsSubscribed w → IsSubscribed (broadcast i w msg)
  unfolding broadcast
  broadcast-IsSubscribed i msg w s = record {
    consistent = s.consistent;
    known = λ k j h.
        ground (arith, s.known k j, notify_lem msg ((w.instances i).broadcaster) w.nodes k);
    connected = λ k j h.
        ground (arith, s.connected k j, notify_lem msg ((w.instances i).broadcaster) w.nodes k);
  }

  pub spin_some-IsSubscribed :
      (i : ℕ) (msgs : List M) (w : World M) → IsSubscribed w → IsSubscribed (spin_some i msgs w)
  unfolding spin_some
  spin_some-IsSubscribed i [] w s = s
  spin_some-IsSubscribed i (msg ∷ msgs) w s =
      spin_some-IsSubscribed i msgs (broadcast i w msg) (broadcast-IsSubscribed i msg w s)

  pub destroy-IsSubscribed :
      (n : ℕ) (w : World M) → IsSubscribed w → IsSubscribed (update n (λ x. members) (destroy n w))
  unfolding destroy
  destroy-IsSubscribed n w s = record {
    consistent = ground (arith, s.consistent);
    known = λ k j h. ground (arith, s.known k j);
    connected =
        λ k j h. ground (arith, s.connected k j, contains-remove k n ((w.instances j).broadcaster));
  }
