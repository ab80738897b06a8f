-- ===== src/ActionNode/World.antt =====
-- All RosActionNodes of a process with their registry: nodes are constructed, ticked, halted and
-- destroyed in any order. A node is a number, and `ros_name` gives the fully qualified name of the ROS
-- node that it was made for. A weak pointer has expired when no node holds the instance, so each step
-- begins with the instances that are held then. A constructor that throws leaves no node.
pub mod SameClients
pub mod Looks
pub mod Shared
use behavior_tree_ros.ActionNode.{Env, State, RosActionNode}
use behavior_tree_ros.ActionNode.Client.{members, construct}
use behavior_tree_ros.ActionNode.Cancel.{halt, run_callbacks}
use behavior_tree_ros.ActionNode.Tick.{tick}
use behavior_tree_ros.ActionNode.Runs.{set_status}
use behavior_tree_ros.Registry.{Registry}
use behavior_tree_ros.RosNodeParams.{RosNodeParams}
use behavior_tree_ros.Ros.{Api, NodeStatus, idle}
use behavior_tree_ros.Prelude.{
  ℕ, List, Option, String, Bool, none, some, ◌≡◌, ◌⊎◌, true, [], ◌==◌, if◌then◌else◌, contains,
  ◌<>◌,
}
use behavior_tree_ros.Program.{Outcome, done, throws, Exception}

pub record World (R : Type 0) : Type 0 where
  pub nodes : ℕ → RosActionNode R
  pub registry : Registry

module _ {G R : Type 0} where
  -- What a member function of the node works on, with the instances that are held.
  abbrev pub local : ℕ → List ℕ → World R → State G R
  local n held w = record {
    node = w.nodes n;
    registry = record (w.registry) { held = held };
    calls = [];
  }

  -- The world after the node's call.
  abbrev pub put : ℕ → State G R → World R → World R
  put n s w = record { nodes = λ k. if k == n then s.node else w.nodes k; registry = s.registry }

-- The instances that the nodes hold.
abbrev pub IsHeld : {R : Type 0} → World R → List ℕ → Type 0
IsHeld w held = (n i : ℕ) → (w.nodes n).client_instance ≡ some i → contains held i ≡ true

-- The ROS node of the BT node answers, or is gone.
abbrev pub Belongs : {G F R : Type 0} → (ℕ → String) → ℕ → Env G F R → Type 0
Belongs ros_name n e = (e.ros_node ≡ none) ⊎ (e.ros_node ≡ some (ros_name n))

module _ (G F R : Type 0) (api : Api) (ros_name : ℕ → String) where
  pub data Step (w : World R) : World R → Type 0 where
    constructs :
        (n : ℕ) (held : List ℕ) (e : Env G F R) (port : Option String) (p : RosNodeParams)
        (t : State G R)
        → (w.nodes n).client_instance ≡ none
        → IsHeld w held
        → Belongs ros_name n e
        → construct api e port p (local n held w) ≡ (done tt, t)
        → Step w (put n t w)
    -- a tick that returns, and one that throws
    ticks :
        (n : ℕ) (held : List ℕ) (e : Env G F R) (v : NodeStatus) (t : State G R)
        → IsHeld w held
        → Belongs ros_name n e
        → tick api e (local n held w) ≡ (done v, t)
        → Step w (put n (set_status v t) w)
    tick_throws :
        (n : ℕ) (held : List ℕ) (e : Env G F R) (x : Exception) (t : State G R)
        → IsHeld w held
        → Belongs ros_name n e
        → tick api e (local n held w) ≡ (throws x, t)
        → Step w (put n t w)
    halts :
        (n : ℕ) (held : List ℕ) (e : Env G F R) (t : State G R)
        → IsHeld w held
        → halt e (local n held w) ≡ (done tt, t)
        → Step w (put n (set_status idle t) w)
    halt_throws :
        (n : ℕ) (held : List ℕ) (e : Env G F R) (x : Exception) (t : State G R)
        → IsHeld w held
        → halt e (local n held w) ≡ (throws x, t)
        → Step w (put n t w)
    -- a node is destroyed
    drops :
        (n : ℕ) (p : RosNodeParams)
        → Step w (record w { nodes = λ k. if k == n then members p else w.nodes k })

  pub data Reach (w : World R) : World R → Type 0 where
    here : Reach w w
    next : {u v : World R} → Reach w u → Step u v → Reach w v

abbrev pub no_nodes : {R : Type 0} → RosNodeParams → World R
no_nodes p = record {
  nodes = λ k. members p;
  registry = record { entries = []; held = []; next_instance = 0 };
}
