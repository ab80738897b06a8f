-- ===== src/ActionNode/Runs/Machine.antt =====
-- The life of a RosActionNode as an abstract machine: it rests, it has asked the server for a goal, or
-- the server works on the goal of a handle. `goals` are those that were ever sent, the latest first.
pub mod Sending
pub mod Refinement
mod Tests
use behavior_tree_ros.ActionNode.{State}
use behavior_tree_ros.ActionNode.Cancel.Handles.{sent}
use behavior_tree_ros.Prelude.{Option, ℕ, List, ◌∷◌, ◌≡◌, some, if◌then◌else◌}
use behavior_tree_ros.Ros.{is_running}

pub data Phase : Type 0 where
  resting asked : Phase
  working : Option ℕ → Phase

pub record View (G : Type 0) : Type 0 where
  pub phase : Phase
  pub goals : List G

-- What a node looks like from outside.
abbrev pub view : {G R : Type 0} → State G R → View G
view s = record {
  phase =
      if is_running s.status
      then (if s.goal_received then working s.goal_handle else asked)
      else resting;
  goals = sent s.calls;
}

pub data Move {G : Type 0} (a b : View G) : Type 0 where
  asks : (g : G) → a.phase ≡ resting → b.phase ≡ asked → b.goals ≡ g ∷ a.goals → Move a b
  accepts : (id : ℕ) → a.phase ≡ asked → b.phase ≡ working (some id) → b.goals ≡ a.goals → Move a b
  stays : b.phase ≡ a.phase → b.goals ≡ a.goals → Move a b
  ends : b.phase ≡ resting → b.goals ≡ a.goals → Move a b

pub data Moves {G : Type 0} (a : View G) : View G → Type 0 where
  none_yet : Moves a a
  then_move : {b c : View G} → Moves a b → Move b c → Moves a c
