-- ===== src/ActionNode/Runs/Throwing.antt =====
-- The life of a RosActionNode in which ticks and halts may also throw: the tree that contains it is
-- halted afterwards, when the next tree takes its place.
pub mod Unsent
pub mod Rejected
mod Tests
use behavior_tree_ros.ActionNode.{Env, State, Hooks, Callback}
use behavior_tree_ros.ActionNode.Tick.{
  tick, tick_connected, refresh_client, dispatch, start, send_goal, poll, await_goal, goal_answered,
  accept_reply, after_goal, answer_feedback, answer_result, checked, check_status,
}
use behavior_tree_ros.ActionNode.Cancel.{halt, run_callbacks, spin_until_future_complete}
use behavior_tree_ros.ActionNode.Cancel.Handles.{
  run_callbacks-Keeps, spin-Keeps, cancel_goal-Steady,
}
use behavior_tree_ros.ActionNode.Client.{construct}
use behavior_tree_ros.ActionNode.Runs.{set_status, can_tick}
use behavior_tree_ros.ActionNode.Runs.Callbacks.{IsBenign, InOrder, cancel_goal-safe}
use behavior_tree_ros.ActionNode.Runs.Safety.{
  refresh_client-status, construct_lem, is_running-cases,
}
use behavior_tree_ros.RosNodeParams.{RosNodeParams}
use behavior_tree_ros.Registry.{Registry}
use behavior_tree_ros.Ros.{Api, NodeStatus, idle, running, is_running}
use behavior_tree_ros.Prelude.{Option, String, List, ◌≡◌, true, false, is_some, arith, inl, inr}
use behavior_tree_ros.Program.{Outcome, Exception, done, throws, NeverFaults}

module _ {G R : Type 0} where
  abbrev pub HasClient : State G R → Type 0
  HasClient s = s.status ≡ running → is_some s.client_instance ≡ true

  -- What a tick or its part leaves, however it ends.
  abbrev KeepsClient : Outcome NodeStatus × State G R → Type 0
  KeepsClient (o, t) = HasClient t × (o ≡ done running → is_some t.client_instance ≡ true)

module _ {G F R : Type 0} (api : Api) (e : Env G F R) where
  start-client : (s : State G R) → (start api e s).1.client_instance ≡ s.client_instance
  unfolding start send_goal checked check_status
  start-client s = ground arith

  after_goal-client : (s : State G R) → (after_goal api e s).1.client_instance ≡ s.client_instance
  unfolding after_goal answer_feedback answer_result checked check_status
  after_goal-client s = ground (arith, cancel_goal-Steady e s)

  abbrev accept : State G R → State G R
  accept u = record u {
    node = record (u.node) {
      goal_received = true;
      goal_handle = e.goal_reply;
      future_goal_handle = false;
    };
  }

  poll-client : (s : State G R) → (poll api e s).1.client_instance ≡ s.client_instance
  unfolding poll await_goal goal_answered accept_reply checked check_status
  poll-client s =
      let t = (run_callbacks e.hooks e.spin_some s).1 in
      let u = (spin_until_future_complete e.hooks t.future_goal_handle e.spin_goal t).1 in
      ground (
        arith,
        run_callbacks-Keeps e.hooks e.spin_some s,
        spin-Keeps e.hooks t.future_goal_handle e.spin_goal t,
        after_goal-client t,
        after_goal-client (accept u),
      )

  running-KeepsClient :
      (s : State G R)
      → s.status ≡ running
      → is_some s.client_instance ≡ true
      → KeepsClient (tick api e s)
  unfolding tick tick_connected refresh_client dispatch halt
  running-KeepsClient s on has_client =
      (ground (arith, poll-client s, cancel_goal-Steady e s), ground (arith, poll-client s))

  resting-KeepsClient : (s : State G R) → is_running s.status ≡ false → KeepsClient (tick api e s)
  unfolding tick tick_connected dispatch halt
  resting-KeepsClient s off =
      let c = (refresh_client api e s).1 in
      let same = refresh_client-status api e s in
      (ground (arith, same, start-client c), ground (arith, same, start-client c))

  tick-KeepsClient : (s : State G R) → HasClient s → KeepsClient (tick api e s)
  tick-KeepsClient s has = elim (is_running-cases s.status) [
    | inl on ↦ running-KeepsClient s on (has on)
    | inr off ↦ resting-KeepsClient s off
  ]

-- As `Step`, but a tick and a halt may throw: the state is then as they left it.
pub data Step {G : Type 0} (F : Type 0) {R : Type 0} (api : Api) (s : State G R)
    : State G R → Type 0 where
  ticks :
      (e : Env G F R) (v : NodeStatus) (t : State G R)
      → can_tick s.status ≡ true
      → tick api e s ≡ (done v, t)
      → Step F api s (set_status v t)
  tick_throws :
      (e : Env G F R) (x : Exception) (t : State G R)
      → can_tick s.status ≡ true
      → tick api e s ≡ (throws x, t)
      → Step F api s t
  halts :
      (e : Env G F R) (t : State G R) → halt e s ≡ (done tt, t) → Step F api s (set_status idle t)
  halt_throws :
      (e : Env G F R) (x : Exception) (t : State G R) → halt e s ≡ (throws x, t) → Step F api s t
  resets : is_running s.status ≡ false → Step F api s (set_status idle s)
  overhears :
      (h : Hooks G F R) (cs : List (Callback F R)) (o : Outcome (Unit {0})) (t : State G R)
      → run_callbacks h cs s ≡ (o, t)
      → Step F api s t
  others : (r : Registry) → Step F api s (record s { registry = r })

pub data Reach {G : Type 0} (F : Type 0) {R : Type 0} (api : Api) (s : State G R)
    : State G R → Type 0 where
  here : Reach F api s s
  next : {t u : State G R} → Reach F api s t → Step F api t u → Reach F api s u

module _ {G F R : Type 0} (api : Api) where
  Step-HasClient : {s t : State G R} → Step F api s t → HasClient s → HasClient t
  unfolding halt
  Step-HasClient {s} (ticks e v t can h) has on =
      ground (arith, h, on, (tick-KeepsClient api e s has).1)
  Step-HasClient {s} (tick_throws e x t can h) has on =
      ground (arith, h, on, (tick-KeepsClient api e s has).0)
  Step-HasClient {s} (halts e t h) has on = ground (arith, on)
  Step-HasClient {s} (halt_throws e x t h) has on =
      ground (arith, h, on, has, cancel_goal-Steady e s)
  Step-HasClient {s} (resets off) has on = ground (arith, on)
  Step-HasClient {s} (overhears h cs o t ran) has on =
      ground (arith, ran, on, has, run_callbacks-Keeps h cs s)
  Step-HasClient {s} (others r) has on = has on

  pub Reach-HasClient : {s t : State G R} → Reach F api s t → HasClient s → HasClient t
  Reach-HasClient here has = has
  Reach-HasClient (next r st) has = Step-HasClient st (Reach-HasClient r has)

  -- A node that was constructed, and was then ticked, halted and reset in any order, by ticks and
  -- halts that may also throw and whose callbacks answer anything, while other nodes spin its
  -- executor and change the registry: `halt` has no undefined behaviour, where the derived class
  -- and rclcpp have none, no goal is rejected during it, and the results that come in while it
  -- awaits the goal's handle come only where a handle is held.
  pub halt_always_safe :
      (made e : Env G F R) (port : Option String) (p : RosNodeParams) (s t u : State G R)
      → construct api made port p s ≡ (done tt, t)
      → Reach F api t u
      → IsBenign e
      → InOrder u e.spin_accept.ran
      → NeverFaults (halt e u).0
  unfolding halt
  halt_always_safe made e port p s t u built r b o =
      let rest : t.status ≡ idle = ground (arith, built, construct_lem api made port p s) in
      let has = Reach-HasClient r (λ on. ground (arith, rest, on)) in
      elim (is_running-cases u.status) [
        | inl on ↦ ground (arith, b.halted, cancel_goal-safe e b u (has on) o)
        | inr off ↦ ground (arith, off)
      ]
