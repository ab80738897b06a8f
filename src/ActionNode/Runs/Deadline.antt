-- ===== src/ActionNode/Runs/Deadline.antt =====
-- How long a RosActionNode can wait for the server to answer its goal.
mod Tests
use behavior_tree_ros.ActionNode.{Env, State, now}
use behavior_tree_ros.ActionNode.Tick.{
  tick, refresh_client, tick_connected, with_client, dispatch, start, send_goal, poll, await_goal,
  goal_answered, accept_reply, checked, check_status,
}
use behavior_tree_ros.ActionNode.Runs.{set_status, IsSound}
use behavior_tree_ros.ActionNode.Runs.Safety.{refresh_client-status}
use behavior_tree_ros.ActionNode.Runs.Machine.Refinement.{after_goal-same, accept}
use behavior_tree_ros.ActionNode.Cancel.Handles.{run_callbacks-Keeps, spin-Keeps}
use behavior_tree_ros.ActionNode.Cancel.{run_callbacks, spin_until_future_complete}
use behavior_tree_ros.ActionNode.Tick.Live.{IsLive, tick-IsLive, poll-IsLive}
use behavior_tree_ros.Ros.{Api, IsDocumented, NodeStatus, idle, running}
use behavior_tree_ros.Prelude.{List, ◌∷◌, ◌≡◌, arith, ◌≤◌, false, ◌+◌, [], is_some, true, ℕ}
use behavior_tree_ros.Program.{Outcome, done}

module _ {G R : Type 0} (api : Api) where
  -- A node that waits for the answer to its goal, with the last moment to wait for it.
  record IsPending (limit : ℕ) (s : State G R) : Type 0 where
    live : IsLive s
    unanswered : s.goal_received ≡ false
    until : s.time_goal_sent + api.from_seconds s.server_timeout ≡ limit

module _ {G F R : Type 0} (api : Api) where
  -- Every one of these ticks returns RUNNING and finds no answer to the goal.
  pub StaysAsked : List (Env G F R) → State G R → Type 0
  StaysAsked [] s = Unit {0}
  StaysAsked (e ∷ es) s =
      let (o, t) = tick api e s in
      (o ≡ done running) × (t.goal_received ≡ false) × StaysAsked es (set_status running t)

  -- The clock of each of these ticks is at this time or before.
  abbrev pub ByTime : ℕ → List (Env G F R) → Type 0
  ByTime limit [] = Unit {0}
  ByTime limit (e ∷ es) = (now e ≤ limit) × ByTime limit es

  -- What a tick that finds no answer says of the time.
  abbrev Waits : Env G F R → ℕ → Outcome NodeStatus × State G R → Type 0
  Waits e limit (o, t) =
      o ≡ done running
      → t.goal_received ≡ false
      → (now e ≤ limit) × (t.time_goal_sent + api.from_seconds t.server_timeout ≡ limit)

  poll_by_limit :
      (e : Env G F R) (limit : ℕ) (s : State G R)
      → IsDocumented api
      → IsPending api limit s
      → Waits e limit (poll api e s)
  unfolding poll await_goal goal_answered accept_reply checked check_status
  poll_by_limit e limit s d p on none_yet =
      let t = (run_callbacks e.hooks e.spin_some s).1 in
      let u = (spin_until_future_complete e.hooks t.future_goal_handle e.spin_goal t).1 in
      ground (
        arith,
        d.completed running,
        p.unanswered,
        p.until,
        run_callbacks-Keeps e.hooks e.spin_some s,
        spin-Keeps e.hooks t.future_goal_handle e.spin_goal t,
        after_goal-same api e (accept api e u),
      )

  tick_by_limit :
      (e : Env G F R) (limit : ℕ) (s : State G R)
      → IsDocumented api
      → IsPending api limit s
      → (tick api e s).0 ≡ done running
      → (tick api e s).1.goal_received ≡ false
      → (now e ≤ limit) × IsPending api limit (set_status running (tick api e s).1)
  unfolding tick tick_connected refresh_client dispatch
  tick_by_limit e limit s d p on none_yet =
      let live = p.live in
      let w = poll_by_limit e limit s d p in
      let l = poll-IsLive api e d s live in
      (
        ground (arith, live, w),
        record {
          live = ground (arith, live, l);
          unanswered = none_yet;
          until = ground (arith, live, w);
        },
      )

  ticks_by_limit :
      (es : List (Env G F R)) (limit : ℕ) (s : State G R)
      → IsDocumented api
      → IsPending api limit s
      → StaysAsked es s
      → ByTime limit es
  unfolding StaysAsked
  ticks_by_limit [] limit s d p on = tt
  ticks_by_limit (e ∷ es) limit s d p on =
      let first = tick_by_limit e limit s d p on.0 on.1 in
      (first.0, ticks_by_limit es limit (set_status running (tick api e s).1) d first.1 on.2)

  -- What a first tick that sends its goal leaves.
  abbrev Sends : Env G F R → State G R → Outcome NodeStatus × State G R → Type 0
  Sends e s (o, t) =
      o ≡ done running
      → IsPending api (now e + api.from_seconds s.server_timeout) (set_status running t)

  start-Sends :
      (e : Env G F R) (s : State G R)
      → IsDocumented api
      → IsSound e
      → is_some s.client_instance ≡ true
      → Sends e s (start api e s)
  unfolding start send_goal checked check_status
  start-Sends e s d sound has on = record {
    live = ground (arith, d.completed running);
    unanswered = ground (arith, d.completed running);
    until = ground (arith, d.completed running);
  }

  tick-Sends :
      (e : Env G F R) (s : State G R)
      → IsDocumented api
      → IsSound e
      → s.status ≡ idle
      → Sends e s (tick api e s)
  unfolding tick tick_connected dispatch
  tick-Sends e s d sound first on =
      let c = (refresh_client api e s).1 in
      ground (arith, refresh_client-status api e s, start-Sends e c d sound)

  -- With the documented `isStatusCompleted`, and where `onFailure` does not answer RUNNING to
  -- SERVER_UNREACHABLE: a node that is idle and then ticked, with all these ticks returning RUNNING
  -- and none bringing the server's answer to the goal, has had none of them after the first later
  -- than the first one's time and the server timeout together.
  pub goal_answered_by_deadline :
      (e : Env G F R) (es : List (Env G F R)) (s : State G R)
      → IsDocumented api
      → IsSound e
      → s.status ≡ idle
      → StaysAsked (e ∷ es) s
      → ByTime (now e + api.from_seconds s.server_timeout) es
  unfolding StaysAsked
  goal_answered_by_deadline e es s d sound first on =
      let t = (tick api e s).1 in
      ticks_by_limit es (now e + api.from_seconds s.server_timeout) (set_status running t) d
        (tick-Sends e s d sound first on.0) on.2
