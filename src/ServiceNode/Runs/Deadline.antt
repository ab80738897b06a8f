-- ===== src/ServiceNode/Runs/Deadline.antt =====
-- How long a RosServiceNode can be RUNNING.
mod Tests
use behavior_tree_ros.ServiceNode.{Env, State, now}
use behavior_tree_ros.ServiceNode.Tick.{
  tick, refresh_client, with_client, dispatch, start, send_request, poll, await_response,
  spin_until_future_complete, response_answered, accept_response, answer_response, checked,
  check_status, halt,
}
use behavior_tree_ros.ServiceNode.Runs.{set_status, IsSound}
use behavior_tree_ros.ServiceNode.Runs.Safety.{refresh_client-status}
use behavior_tree_ros.ServiceNode.Tick.Phases.{IsWaiting}
use behavior_tree_ros.Ros.{Api, IsDocumented, NodeStatus, idle, running}
use behavior_tree_ros.Prelude.{List, ◌∷◌, ◌≡◌, ◌≤◌, false, ◌+◌, [], arith, is_some, true, ℕ}
use behavior_tree_ros.Program.{done, Outcome}

module _ {Q R : Type 0} (api : Api) where
  -- Every one of these ticks returns RUNNING.
  unfoldable pub StaysRunning : List (Env Q R) → State Q R → Type 0
  StaysRunning [] s = Unit {0}
  StaysRunning (e ∷ es) s =
      ((tick api e s).0 ≡ done running) × StaysRunning es (set_status running (tick api e s).1)

  -- The clock of each of these ticks is at this time or before.
  abbrev pub ByTime : ℕ → List (Env Q R) → Type 0
  ByTime limit [] = Unit {0}
  ByTime limit (e ∷ es) = (now e ≤ limit) × ByTime limit es

  -- A node that waits for the response to a request, with the last moment to wait for it.
  record IsPending (limit : ℕ) (s : State Q R) : Type 0 where
    waits : IsWaiting s
    unanswered : s.response_received ≡ false
    until : s.time_request_sent + api.from_seconds s.service_timeout_ms ≡ limit

  tick_by_limit :
      (e : Env Q R) (limit : ℕ) (s : State Q R)
      → IsDocumented api
      → IsPending limit s
      → (tick api e s).0 ≡ done running
      → (now e ≤ limit) × IsPending limit (set_status running (tick api e s).1)
  unfolding tick refresh_client with_client dispatch poll await_response spin_until_future_complete
      response_answered accept_response answer_response checked check_status halt
  tick_by_limit e limit s d p on =
      let w = p.waits in
      let valid = w.in_flight p.unanswered in
      (
        ground (arith, d.completed running, w, valid, p.unanswered, p.until),
        record {
          waits = ground (arith, d.completed running, w, valid, p.unanswered);
          unanswered = ground (arith, d.completed running, w, valid, p.unanswered);
          until = ground (arith, d.completed running, w, valid, p.unanswered, p.until);
        },
      )

  ticks_by_limit :
      (es : List (Env Q R)) (limit : ℕ) (s : State Q R)
      → IsDocumented api
      → IsPending limit s
      → StaysRunning es s
      → ByTime limit es
  unfolding StaysRunning
  ticks_by_limit [] limit s d p on = tt
  ticks_by_limit (e ∷ es) limit s d p on =
      let here = tick_by_limit e limit s d p (on.0) in
      (here.0, ticks_by_limit es limit (set_status running (tick api e s).1) d here.1 on.1)

  -- What a first tick that sends its request leaves.
  abbrev Sends : Env Q R → State Q R → Outcome NodeStatus × State Q R → Type 0
  Sends e s (o, t) =
      o ≡ done running
      → IsPending (now e + api.from_seconds s.service_timeout_ms) (set_status running t)

  start-Sends :
      (e : Env Q R) (s : State Q R)
      → IsDocumented api
      → IsSound e
      → is_some s.srv_instance ≡ true
      → Sends e s (start api e s)
  unfolding start send_request checked check_status
  start-Sends e s d sound has on = record {
    waits = ground (arith, d.completed running);
    unanswered = ground (arith, d.completed running);
    until = ground (arith, d.completed running);
  }

  tick-Sends :
      (e : Env Q R) (s : State Q R)
      → IsDocumented api
      → IsSound e
      → s.status ≡ idle
      → Sends e s (tick api e s)
  unfolding tick with_client dispatch
  tick-Sends e s d sound first on =
      let c = (refresh_client api e s).1 in
      ground (arith, refresh_client-status api e s, start-Sends e c d sound)

  -- With the documented `isStatusCompleted`, and where `onFailure` does not answer RUNNING to
  -- SERVICE_UNREACHABLE: a node that is idle and then ticked, with all these ticks returning
  -- RUNNING, has had none of them after the first later than the first one's time and the service
  -- timeout together. So it is answered, or fails, by the first tick after that.
  pub answered_by_deadline :
      (e : Env Q R) (es : List (Env Q R)) (s : State Q R)
      → IsDocumented api
      → IsSound e
      → s.status ≡ idle
      → StaysRunning (e ∷ es) s
      → ByTime (now e + api.from_seconds s.service_timeout_ms) es
  unfolding StaysRunning
  answered_by_deadline e es s d sound first on =
      let t = (tick api e s).1 in
      ticks_by_limit es (now e + api.from_seconds s.service_timeout_ms) (set_status running t) d
        (tick-Sends e s d sound first on.0) on.1
