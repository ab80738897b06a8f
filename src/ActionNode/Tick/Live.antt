-- ===== src/ActionNode/Tick/Live.antt =====
-- A running RosActionNode over many ticks: the goals that it sends, and what it waits on.
use behavior_tree_ros.Prelude.{
  ◌≡◌, true, is_some, false, arith, Bool, ltb, ◌+◌, ℕ, some, ◌⊎◌, none, ◌≢◌, refl,
}
use behavior_tree_ros.Ros.{Api, running, NodeStatus, IsDocumented, idle}
use behavior_tree_ros.Program.{Outcome, done}
use behavior_tree_ros.ActionNode.{State, Env, server_unreachable, now}
use behavior_tree_ros.ActionNode.Tick.{
  after_goal, answer_feedback, accept_reply, await_goal, tick_connected, answer_result, checked,
  refresh_client, dispatch, check_status, start, send_goal, goal_answered, poll, tick,
}
use behavior_tree_ros.ActionNode.Cancel.Handles.{
  sent, cancel_goal-Steady, run_callbacks-Keeps, spin-Keeps, Keeps,
}
use behavior_tree_ros.ActionNode.Cancel.{run_callbacks, spin_until_future_complete, halt}

-- A node that has been started and has not finished.
pub record IsLive {G R : Type 0} (s : State G R) : Type 0 where
  pub on : s.status ≡ running
  pub has_client : is_some s.client_instance ≡ true
  pub in_flight : s.goal_received ≡ false → s.future_goal_handle ≡ true
  pub accepted : s.goal_received ≡ true → is_some s.goal_handle ≡ true

module _ {G F R : Type 0} (api : Api) (e : Env G F R) where
  abbrev accept : State G R → State G R
  accept u = record u {
    node = record (u.node) {
      goal_received = true;
      goal_handle = e.goal_reply;
      future_goal_handle = false;
    };
  }

  -- What a later part of the tick does to a node that has no new goal to send.
  abbrev SendsNothing : State G R → Outcome NodeStatus × State G R → Type 0
  SendsNothing s (o, t) = sent t.calls ≡ sent s.calls

  after_goal-sent : (s : State G R) → SendsNothing s (after_goal api e s)
  unfolding after_goal answer_feedback answer_result checked
  after_goal-sent s = ground (arith, cancel_goal-Steady e s)

  goal_answered-sent : (b c : Bool) (s : State G R) → SendsNothing s (goal_answered api e b c s)
  unfolding goal_answered accept_reply checked
  goal_answered-sent b c s = ground (arith, after_goal-sent (accept s))

  poll-sent : (s : State G R) → SendsNothing s (poll api e s)
  unfolding poll await_goal
  poll-sent s =
      let t = (run_callbacks e.hooks e.spin_some s).1 in
      let u = (spin_until_future_complete e.hooks t.future_goal_handle e.spin_goal t).1 in
      let late = ltb (u.time_goal_sent + api.from_seconds u.server_timeout) (now e) in
      ground (
        arith,
        run_callbacks-Keeps e.hooks e.spin_some s,
        spin-Keeps e.hooks t.future_goal_handle e.spin_goal t,
        after_goal-sent t,
        goal_answered-sent true late u,
        goal_answered-sent false late u,
      )

  -- A tick of a running node with a client sends no goal, whatever the server and the derived class
  -- do.
  pub tick_running_sends_nothing :
      (client : ℕ) (s : State G R)
      → s.status ≡ running
      → s.client_instance ≡ some client
      → sent (tick api e s).1.calls ≡ sent s.calls
  unfolding tick tick_connected refresh_client dispatch halt
  tick_running_sends_nothing client s on has_client =
      ground (arith, poll-sent s, cancel_goal-Steady e s)

  abbrev StaysLive : Outcome NodeStatus × State G R → Type 0
  StaysLive (o, t) = o ≡ done running → IsLive t

  after_goal-IsLive :
      IsDocumented api
      → (s : State G R) → IsLive s
      → s.goal_received ≡ true
      → StaysLive (after_goal api e s)
  unfolding after_goal answer_feedback answer_result checked check_status
  after_goal-IsLive d s live received h =
      ground (arith, d.completed running, cancel_goal-Steady e s)

  accept-IsLive : (s : State G R) → IsLive s → is_some e.goal_reply ≡ true → IsLive (accept s)
  accept-IsLive s live known = ground arith

  goal_answered-IsLive :
      IsDocumented api
      → (b c : Bool) (s : State G R) → IsLive s
      → s.goal_received ≡ false
      → StaysLive (goal_answered api e b c s)
  unfolding goal_answered accept_reply checked check_status
  goal_answered-IsLive d b c s live waits h = ground (
    arith,
    d.completed running,
    accept-IsLive s live,
    λ (l : IsLive (accept s)). after_goal-IsLive d (accept s) l refl,
  )

  Keeps-IsLive : (s t : State G R) → Keeps s t → IsLive s → IsLive t
  Keeps-IsLive s t k live = ground arith

  pub poll-IsLive : IsDocumented api → (s : State G R) → IsLive s → StaysLive (poll api e s)
  unfolding poll await_goal
  poll-IsLive d s live h =
      let t = (run_callbacks e.hooks e.spin_some s).1 in
      let u = (spin_until_future_complete e.hooks t.future_goal_handle e.spin_goal t).1 in
      let late = ltb (u.time_goal_sent + api.from_seconds u.server_timeout) (now e) in
      let kept = spin-Keeps e.hooks t.future_goal_handle e.spin_goal t in
      let live_t = Keeps-IsLive s t (run_callbacks-Keeps e.hooks e.spin_some s) live in
      let live_u = Keeps-IsLive t u kept live_t in
      ground (
        arith,
        kept,
        after_goal-IsLive d t live_t,
        goal_answered-IsLive d true late u live_u,
        goal_answered-IsLive d false late u live_u,
      )

  -- With the documented `isStatusCompleted`: a tick that returns RUNNING leaves a live node
  -- (running, with a client, and with a valid future until the goal is answered and a handle from
  -- then on), from a node that was live or was idle with a client that is not looked up again;
  -- `onFailure` must not answer RUNNING to SERVER_UNREACHABLE, which `tick` does not check.
  pub tick-IsLive :
      IsDocumented api
      → (s t : State G R)
      → (s.status ≡ idle)
          × (is_some s.client_instance ≡ true)
          × (s.action_name_should_be_checked ≡ false)
        ⊎ IsLive s
      → e.on_failure server_unreachable none ≢ done running
      → tick api e s ≡ (done running, t)
      → IsLive t
  unfolding tick tick_connected refresh_client dispatch start send_goal checked check_status
  tick-IsLive d s t ready sound h = ground (arith, d.completed running, poll-IsLive d s)
