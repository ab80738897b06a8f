-- ===== src/TreeExecutionServer/ServiceTree.antt =====
-- The server with a tree that is one RosServiceNode: `execute` ticks the node, and so ends when the
-- service does not answer in time.
mod Tests
use behavior_tree_ros.ServiceNode.{Env, State, now}
use behavior_tree_ros.ServiceNode.Tick.{tick}
use behavior_tree_ros.ServiceNode.Runs.{set_status, IsSound}
use behavior_tree_ros.ServiceNode.Runs.Deadline.{StaysRunning, ByTime, answered_by_deadline}
use behavior_tree_ros.TreeExecutionServer.Execute.{ExecuteEnv, Round, execute, unfinished}
use behavior_tree_ros.TreeExecutionServer.Execute.Progress.{
  all_go_on, goes_on, execute_unfinished, is_running_tick,
}
use behavior_tree_ros.TreeExecutionServer.{Goal, Server}
use behavior_tree_ros.Ros.{Api, IsDocumented, NodeStatus, idle, running, success, failure, skipped}
use behavior_tree_ros.Prelude.{List, ◌∷◌, ◌≡◌, ℕ, true, ◌++◌, [], arith, ◌≤◌, ◌+◌, ◌<◌, ◌≢◌, refl}
use behavior_tree_ros.Program.{Outcome, done, throws, faults}

-- What happens in one round of the loop: to the node when it is ticked, and around that. The tick of
-- the round is the node's.
pub record Turn (Q R : Type 0) : Type 0 where
  pub env : Env Q R
  pub round : Round

pub running_tick : (o : Outcome NodeStatus) → is_running_tick o ≡ true → o ≡ done running
running_tick (done running) h = refl
running_tick (done success) h = cc
running_tick (done failure) h = cc
running_tick (done idle) h = cc
running_tick (done skipped) h = cc
running_tick (throws x) h = cc
running_tick (faults u) h = cc

module _ {Q R : Type 0} (api : Api) where
  -- The rounds of the loop. What the node does after it has ended does not matter, since no round
  -- comes after that.
  pub rounds_of : List (Turn Q R) → State Q R → List Round
  rounds_of [] s = []
  rounds_of (t ∷ ts) s =
      record (t.round) { tick_once = (tick api t.env s).0 }
      ∷ rounds_of ts (set_status running (tick api t.env s).1)

  abbrev pub envs : List (Turn Q R) → List (Env Q R)
  envs [] = []
  envs (t ∷ ts) = t.env ∷ envs ts

  rounds_of-StaysRunning :
      (ts : List (Turn Q R)) (s : State Q R)
      → all_go_on (rounds_of ts s) ≡ true
      → StaysRunning api (envs ts) s
  unfolding rounds_of StaysRunning
  rounds_of-StaysRunning [] s h = tt
  rounds_of-StaysRunning (t ∷ ts) s h = (
    running_tick (tick api t.env s).0 (ground (arith, h)),
    rounds_of-StaysRunning ts (set_status running (tick api t.env s).1) (ground (arith, h)),
  )

  late_turn :
      (before after : List (Turn Q R)) (late : Turn Q R) (limit : ℕ)
      → ByTime api limit (envs (before ++ (late ∷ after)))
      → now late.env ≤ limit
  late_turn [] after late limit h = h.0
  late_turn (t ∷ before) after late limit h = late_turn before after late limit h.1

  -- The action server with a tree that is one RosServiceNode, idle when the run starts, where
  -- `isStatusCompleted` is as documented and `onFailure` does not answer RUNNING to
  -- SERVICE_UNREACHABLE: once the clock of some tick after the first is later than the first one's
  -- time and the service timeout together, the loop of `execute` has ended, whatever the service,
  -- rclcpp, the client of the server and the derived classes do.
  pub service_tree_ends :
      (e : ExecuteEnv) (goal : Goal) (server : Server) (first late : Turn Q R)
      (before after : List (Turn Q R)) (s : State Q R)
      → IsDocumented api
      → IsSound first.env
      → s.status ≡ idle
      → e.rounds ≡ rounds_of (first ∷ (before ++ (late ∷ after))) s
      → now first.env + api.from_seconds s.service_timeout_ms < now late.env
      → (execute e goal server).0 ≢ done unfinished
  service_tree_ends e goal server first late before after s d sound rest same past h =
      let ts = first ∷ (before ++ (late ∷ after)) in
      let on : all_go_on (rounds_of ts s) ≡ true =
        ground (arith, execute_unfinished e goal server h, same) in
      let limit = now first.env + api.from_seconds s.service_timeout_ms in
      let in_time = late_turn before after late limit (
        answered_by_deadline api first.env (envs (before ++ (late ∷ after))) s d sound rest
          (rounds_of-StaysRunning ts s on)) in
      omega (arith, in_time, past)
