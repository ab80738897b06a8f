-- ===== src/TreeExecutionServer/ActionTree.antt =====
-- The server with a tree that is one RosActionNode, from the first tick to a cancel request: `execute`
-- ticks the node, and halts it by `haltTree`.
pub mod Results
mod Tests
use mathlib.Core.List.{head?}
use behavior_tree_ros.ActionNode.{Env, State}
use behavior_tree_ros.ActionNode.Tick.{tick}
use behavior_tree_ros.ActionNode.Cancel.{halt, cancel_goal, cancel_handle}
use behavior_tree_ros.ActionNode.Cancel.Handles.{sent, cancelled, halt-Cancels, Cancels}
use behavior_tree_ros.ActionNode.Tick.Live.{IsLive, tick_running_sends_nothing}
use behavior_tree_ros.ActionNode.Runs.{set_status, IsSound, IsReady, can_tick, ticks}
use behavior_tree_ros.ActionNode.Runs.Safety.{Step-IsReady}
use behavior_tree_ros.ActionNode.Runs.Machine.Sending.{Sends, tick-Sends}
use behavior_tree_ros.ActionNode.Runs.Machine.Refinement.{running-sent}
use behavior_tree_ros.TreeExecutionServer.Execute.{ExecuteEnv, Round, execute, returned}
use behavior_tree_ros.TreeExecutionServer.Execute.Progress.{all_go_on, goes_on}
use behavior_tree_ros.TreeExecutionServer.Execute.Report.{
  Answers, verdict, cancelled as canceled, execute_reports, closing, result,
}
use behavior_tree_ros.TreeExecutionServer.ServiceTree.{running_tick}
use behavior_tree_ros.TreeExecutionServer.{Goal, Server, goal_canceled}
use behavior_tree_ros.Ros.{Api, IsDocumented, NodeStatus, idle, running}
use behavior_tree_ros.Prelude.{
  List, Option, String, Bool, ℕ, [], ◌∷◌, ◌++◌, ◌≡◌, true, false, some, arith, ap, inl, inr, refl,
  get_or, ◌∙◌, Option-cases,
}
use behavior_tree_ros.Program.{Outcome, done, throws, faults}

-- What happens in one round of the loop: to the node when it is ticked, and around that. The tick of
-- the round is the node's.
pub record Turn (G F R : Type 0) : Type 0 where
  pub env : Env G F R
  pub round : Round

-- Rounds that go on decide nothing.
verdict-skips : (rs rest : List Round) → all_go_on rs ≡ true → verdict (rs ++ rest) ≡ verdict rest
unfolding verdict
verdict-skips [] rest on = refl
verdict-skips (r ∷ rs) rest on =
    let later = verdict-skips rs rest (ground (arith, on)) in
    let ticked = running_tick r.tick_once (ground (arith, on)) in ground (arith, on, later, ticked)

-- A round that finds a cancel request.
verdict-canceled :
    (after : List Round) (stop : Round)
    → stop.rclcpp_ok ≡ true
    → stop.is_canceling ≡ true
    → verdict (stop ∷ after) ≡ canceled
unfolding verdict
verdict-canceled after stop up asked = ground arith

module _ {G F R : Type 0} (api : Api) where
  -- The rounds of the loop, and the node after them.
  pub rounds_of : List (Turn G F R) → State G R → List Round
  rounds_of [] s = []
  rounds_of (t ∷ ts) s =
      record (t.round) { tick_once = (tick api t.env s).0 }
      ∷ rounds_of ts (set_status running (tick api t.env s).1)

  pub leaf_after : List (Turn G F R) → State G R → State G R
  leaf_after [] s = s
  leaf_after (t ∷ ts) s = leaf_after ts (set_status running (tick api t.env s).1)

  abbrev pub AllSound : List (Turn G F R) → Type 0
  AllSound [] = Unit {0}
  AllSound (t ∷ ts) = IsSound t.env × AllSound ts

  tick_goes_on :
      (e : Env G F R) (s : State G R)
      → IsDocumented api
      → IsSound e
      → can_tick s.status ≡ true
      → IsReady s
      → (tick api e s).0 ≡ done running
      → IsLive (set_status running (tick api e s).1)
  tick_goes_on e s d sound can ready on =
      let t = (tick api e s).1 in
      Step-IsReady api d (ticks e running t sound can (ap (λ o. (o, t)) on)) ready refl

  -- The ticks of a running node that goes on.
  leaf_after-IsLive :
      (ts : List (Turn G F R)) (s : State G R)
      → IsDocumented api
      → AllSound ts
      → IsLive s
      → all_go_on (rounds_of ts s) ≡ true
      → IsLive (leaf_after ts s) × (sent (leaf_after ts s).calls ≡ sent s.calls)
  unfolding rounds_of leaf_after
  leaf_after-IsLive [] s d sound live on = (live, refl)
  leaf_after-IsLive (t ∷ ts) s d sound live on =
      let t1 = set_status running (tick api t.env s).1 in
      let ticked = running_tick (tick api t.env s).0 (ground (arith, on)) in
      let live1 = tick_goes_on t.env s d sound.0 (ground (arith, live.on)) (λ h. live) ticked in
      let rest = leaf_after-IsLive ts t1 d sound.1 live1 (ground (arith, on)) in
      (rest.0, rest.1 ∙ running-sent api t.env s live)

  first-Sends :
      (e : Env G F R) (r : Outcome NodeStatus × State G R) (s : State G R)
      → Sends api e s r
      → r.0 ≡ done running
      → (g : G) × (sent r.1.calls ≡ g ∷ sent s.calls)
  first-Sends e (done v, t) s (inl (g, on, one, fresh)) h = (g, one)
  first-Sends e (done v, t) s (inr (off, same)) h = absurd (ground (arith, off, h))
  first-Sends e (throws x, t) s p h = cc
  first-Sends e (faults u, t) s p h = cc

  -- The node after a first tick and others that go on, from rest.
  leaf_after_lem :
      (first : Turn G F R) (ts : List (Turn G F R)) (s : State G R)
      → IsDocumented api
      → AllSound (first ∷ ts)
      → s.status ≡ idle
      → all_go_on (rounds_of (first ∷ ts) s) ≡ true
      → IsLive (leaf_after (first ∷ ts) s)
        × ((g : G) × (sent (leaf_after (first ∷ ts) s).calls ≡ g ∷ sent s.calls))
  unfolding rounds_of leaf_after
  leaf_after_lem first ts s d sound rest on =
      let r = tick api first.env s in
      let ticked = running_tick r.0 (ground (arith, on)) in
      let live =
        tick_goes_on first.env s d sound.0 (ground (arith, rest)) (λ h. ground (arith, rest, h))
          ticked in
      let begun = first-Sends first.env r s (tick-Sends api first.env s d sound.0 rest) ticked in
      let later =
        leaf_after-IsLive ts (set_status running r.1) d sound.1 live (ground (arith, on)) in
      (later.0, (begun.0, later.1 ∙ begun.1))

module _ {G F R : Type 0} (h : Env G F R) where
  halt-asked :
      (id client : ℕ) (u : State G R)
      → u.status ≡ running
      → u.client_instance ≡ some client
      → u.goal_handle ≡ some id
      → (halt h u).0 ≡ done tt
      → h.get_result_request ≡ done tt
  unfolding halt cancel_goal cancel_handle
  halt-asked id client u on has_client known halted = ground arith

  -- A halt of a live node that knows its goal.
  IsLive-Cancels :
      (id : ℕ) (u : State G R)
      → IsLive u
      → u.goal_handle ≡ some id
      → (halt h u).0 ≡ done tt
      → Cancels h id u (halt h u).1
  IsLive-Cancels id u live known halted = elim (Option-cases u.client_instance) [
    | inl missing ↦ absurd (ground (arith, live.has_client, missing))
    | inr (client, held) ↦
        halt-Cancels h id client u live.on held known
          (halt-asked id client u live.on held known halted)
  ]

module _ {G F R : Type 0} (api : Api) (e : ExecuteEnv) (texts : NodeStatus → Bool → Option String)
    (a : Answers e texts) where
  -- The action server with a tree that is one RosActionNode, idle when the run starts, where
  -- `isStatusCompleted` is as documented and `onFailure` does not answer RUNNING to
  -- SERVER_UNREACHABLE. After one tick or more that go on, a round finds a cancel request while the
  -- node holds the handle of a goal; parameters are not old, the tree can be made, and `haltTree`,
  -- which is the node's `halt`, and the callbacks of the server's derived class return. Then the
  -- server's goal is canceled as the last thing, the node has been asked for one goal in the whole
  -- run, and `halt` has asked the action server once to cancel the goal of that handle.
  pub cancel_reaches_action :
      (goal : Goal) (server : Server) (first : Turn G F R) (ts : List (Turn G F R)) (stop : Round)
      (after : List Round) (h : Env G F R) (s : State G R) (id : ℕ)
      → IsDocumented api
      → AllSound api (first ∷ ts)
      → s.status ≡ idle
      → e.is_old ≡ false
      → e.create_tree ≡ done tt
      → e.on_tree_created ≡ done tt
      → e.make_groot_publisher ≡ done tt
      → e.rounds ≡ rounds_of api (first ∷ ts) s ++ (stop ∷ after)
      → all_go_on (rounds_of api (first ∷ ts) s) ≡ true
      → stop.rclcpp_ok ≡ true
      → stop.is_canceling ≡ true
      → e.halt_tree ≡ (halt h (leaf_after api (first ∷ ts) s)).0
      → (leaf_after api (first ∷ ts) s).goal_handle ≡ some id
      → let u = leaf_after api (first ∷ ts) s in
        let v = (halt h u).1 in
        let (o, t) = execute e goal server in
        let message =
          get_or (texts running true) "Action Server canceling and halting Behavior Tree" in
        (o ≡ done returned)
        × (head? t.events ≡ some (goal_canceled (result running message)))
        × ((g : G) × (sent v.calls ≡ g ∷ sent s.calls))
        × (cancelled v.calls ≡ id ∷ cancelled u.calls)
  unfolding closing
  cancel_reaches_action goal server first ts stop after h s id d sound rest fresh made told shown
        same on up asked halts known =
      let u = leaf_after api (first ∷ ts) s in
      let message =
        get_or (texts running true) "Action Server canceling and halting Behavior Tree" in
      let leaf = leaf_after_lem api first ts s d sound rest on in
      let c = IsLive-Cancels h id u leaf.0 known (ground (arith, a.halts, halts)) in
      let found =
        verdict-skips (rounds_of api (first ∷ ts) s) (stop ∷ after) on
        ∙ verdict-canceled after stop up asked in
      let report =
        execute_reports e texts a goal server (goal_canceled (result running message)) fresh made
          told shown (ap (closing e texts) (ap verdict same ∙ found)) in
      (report.0, report.1, (leaf.1.0, c.none_sent ∙ leaf.1.1), c.one_cancelled)
