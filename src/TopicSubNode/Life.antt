-- ===== src/TopicSubNode/Life.antt =====
-- The life of all RosTopicSubNodes: nodes are constructed, ticked and destroyed in any order. A
-- weak pointer has expired when no node holds the instance, so each step begins with the instances
-- that are held then. A number is given to one node only, and its cell is empty before and after.
pub mod Subscribed
pub mod Hearing
pub mod Null
mod Tests
use behavior_tree_ros.TopicSubNode.{
  World, Env, members, new_instance, construct, tick, destroy, update,
}
use behavior_tree_ros.Registry.{Registry}
use behavior_tree_ros.Ros.{Api}
use behavior_tree_ros.Prelude.{ℕ, List, Option, String, some, ◌≡◌, true, contains, []}

module _ {M : Type 0} where
  abbrev pub no_nodes : World M
  no_nodes = record {
    nodes = λ k. members;
    instances = λ k. new_instance;
    registry = record { entries = []; held = []; next_instance = 0 };
  }

  -- The instances that the nodes hold.
  pub record IsHeld (w : World M) (held : List ℕ) : Type 0 where
    pub alive : (n i : ℕ) → (w.nodes n).sub_instance ≡ some i → contains held i ≡ true
    pub owned : (i : ℕ) → contains held i ≡ true → (n : ℕ) × ((w.nodes n).sub_instance ≡ some i)

  abbrev pub holding : List ℕ → World M → World M
  holding held w = record w { registry = record (w.registry) { held = held } }

  pub data Step (api : Api) (w : World M) : World M → Type 0 where
    constructs :
        (n : ℕ) (e : Env M) (port : Option String) (default_port_value : String) (held : List ℕ)
        → w.nodes n ≡ members
        → IsHeld w held
        → Step api w (construct api e n port default_port_value (holding held w)).1
    ticks :
        (n : ℕ) (e : Env M) (held : List ℕ)
        → IsHeld w held
        → Step api w (tick api e n (holding held w)).1
    destroys : (n : ℕ) → Step api w (update n (λ x. members) (destroy n w))

  pub data Reach (api : Api) (w : World M) : World M → Type 0 where
    here : Reach api w w
    next : {u v : World M} → Reach api w u → Step api u v → Reach api w v
