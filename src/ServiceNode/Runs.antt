-- ===== src/ServiceNode/Runs.antt =====
-- What happens to a RosServiceNode over time: the tree ticks it, halts it and resets it, and
-- between that other nodes change the registry, in any order. The base class of BehaviorTree.CPP
-- stores the status that `tick` returned, and sets IDLE on a reset; it ticks a node that is IDLE
-- or RUNNING only.
pub mod Safety
pub mod Deadline
pub mod Throwing
pub mod Tests
use behavior_tree_ros.Ros.{NodeStatus, running, idle, is_running, Api}
use behavior_tree_ros.ServiceNode.{Env, service_unreachable, ServiceNodeErrorCode, State}
use behavior_tree_ros.Registry.{Registry}
use behavior_tree_ros.Prelude.{Bool, true, ◌≢◌, Option, false, ◌≡◌}
use behavior_tree_ros.Program.{NeverFaults, done}
use behavior_tree_ros.ServiceNode.Tick.{tick, halt}
use behavior_tree_ros.ServiceNode.Tick.Phases.{IsWaiting}

abbrev pub set_status : {Q R : Type 0} → NodeStatus → State Q R → State Q R
set_status v s = record s { node = record (s.node) { status = v } }

abbrev pub can_tick : NodeStatus → Bool
can_tick idle = true
can_tick running = true
can_tick _ = false

-- `onFailure` must not answer RUNNING to SERVICE_UNREACHABLE, which `tick` does not check.
abbrev pub IsSound : {Q R : Type 0} → Env Q R → Type 0
IsSound e = e.on_failure service_unreachable ≢ done running

pub data Step {Q R : Type 0} (api : Api) (s : State Q R) : State Q R → Type 0 where
  ticks :
      (e : Env Q R) (v : NodeStatus) (t : State Q R)
      → IsSound e
      → can_tick s.status ≡ true
      → tick api e s ≡ (done v, t)
      → Step api s (set_status v t)
  halts : (t : State Q R) → halt s ≡ (done tt, t) → Step api s (set_status idle t)
  resets : is_running s.status ≡ false → Step api s (set_status idle s)
  -- Other nodes look their clients up, or let them go.
  others : (r : Registry) → Step api s (record s { registry = r })

pub data Reach {Q R : Type 0} (api : Api) (s : State Q R) : State Q R → Type 0 where
  here : Reach api s s
  next : {t u : State Q R} → Reach api s t → Step api t u → Reach api s u

-- A running node has been started and has not finished.
abbrev pub IsReady : {Q R : Type 0} → State Q R → Type 0
IsReady s = s.status ≡ running → IsWaiting s

-- The derived class and rclcpp return or throw.
pub record IsBenign {Q R : Type 0} (e : Env Q R) : Type 0 where
  pub request_set : NeverFaults e.set_request
  pub response_received : (r : Option R) → NeverFaults (e.on_response_received r)
  pub failed : (c : ServiceNodeErrorCode) → NeverFaults (e.on_failure c)
  pub made : NeverFaults e.make_instance
  pub spun : NeverFaults e.spin_some
  pub waited : NeverFaults e.spin_response
