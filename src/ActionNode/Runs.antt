-- ===== src/ActionNode/Runs.antt =====
-- What happens to a RosActionNode over time: the tree ticks it, halts it and resets it, and
-- between that other nodes spin the executor of its client and change the registry, in any order.
-- The base class of BehaviorTree.CPP stores the status that `tick` returned, and sets IDLE after
-- `halt` and on a reset; it ticks a node that is IDLE or RUNNING only.
pub mod Safety
pub mod Callbacks
pub mod Faults
pub mod Machine
pub mod Deadline
pub mod Throwing
pub mod Tests
use behavior_tree_ros.Ros.{NodeStatus, running, idle, is_running, Api}
use behavior_tree_ros.ActionNode.{Env, server_unreachable, Hooks, Callback, State}
use behavior_tree_ros.Registry.{Registry}
use behavior_tree_ros.ActionNode.Cancel.{run_callbacks, halt}
use behavior_tree_ros.Prelude.{Bool, true, none, false, ◌≢◌, List, ◌≡◌}
use behavior_tree_ros.ActionNode.Tick.{tick}
use behavior_tree_ros.ActionNode.Tick.Live.{IsLive}
use behavior_tree_ros.Program.{done}

module _ {G R : Type 0} where
  abbrev pub set_status : NodeStatus → State G R → State G R
  set_status v s = record s { node = record (s.node) { status = v } }

abbrev pub can_tick : NodeStatus → Bool
can_tick idle = true
can_tick running = true
can_tick _ = false

-- `onFailure` must not answer RUNNING to SERVER_UNREACHABLE, which `tick` does not check.
abbrev pub IsSound : {G F R : Type 0} → Env G F R → Type 0
IsSound e = e.on_failure server_unreachable none ≢ done running

pub data Step {G : Type 0} (F : Type 0) {R : Type 0} (api : Api) (s : State G R)
    : State G R → Type 0 where
  ticks :
      (e : Env G F R) (v : NodeStatus) (t : State G R)
      → IsSound e
      → can_tick s.status ≡ true
      → tick api e s ≡ (done v, t)
      → Step F api s (set_status v t)
  halts :
      (e : Env G F R) (t : State G R) → halt e s ≡ (done tt, t) → Step F api s (set_status idle t)
  resets : is_running s.status ≡ false → Step F api s (set_status idle s)
  -- Another node that has the same client spins its executor.
  overhears :
      (h : Hooks G F R) (cs : List (Callback F R)) (t : State G R)
      → run_callbacks h cs s ≡ (done tt, t)
      → Step F api s t
  -- Other nodes look their clients up, or let them go.
  others : (r : Registry) → Step F api s (record s { registry = r })

pub data Reach {G : Type 0} (F : Type 0) {R : Type 0} (api : Api) (s : State G R)
    : State G R → Type 0 where
  here : Reach F api s s
  next : {t u : State G R} → Reach F api s t → Step F api t u → Reach F api s u

-- A running node has been started and has not finished.
abbrev pub IsReady : {G R : Type 0} → State G R → Type 0
IsReady s = s.status ≡ running → IsLive s
