-- ===== src/ActionNode/Runs/Machine/Refinement.antt =====
-- Every life of a RosActionNode is a run of the abstract machine.
use behavior_tree_ros.ActionNode.Runs.Machine.{
  Phase, view, Move, Moves, asks, accepts, stays, ends, resting, none_yet, then_move,
}
use behavior_tree_ros.ActionNode.Runs.Machine.Sending.{Sends, tick-Sends}
use behavior_tree_ros.ActionNode.{State, Env}
use behavior_tree_ros.ActionNode.Cancel.Handles.{
  sent, cancel_goal-Steady, run_callbacks-Keeps, spin-Keeps,
}
use behavior_tree_ros.ActionNode.Tick.{
  accept_reply, after_goal, answer_feedback, answer_result, checked, check_status, poll, await_goal,
  goal_answered, refresh_client, tick_connected, tick, dispatch,
}
use behavior_tree_ros.Prelude.{
  Option, ◌∷◌, ◌⊎◌, is_some, false, true, arith, inl, ap, inr, refl, String, Option-cases, subst,
  sym, ◌≡◌,
}
use behavior_tree_ros.Ros.{
  Api, is_running, NodeStatus, IsDocumented, running, idle, failure, success, skipped,
}
use behavior_tree_ros.Program.{Outcome, done, throws, faults}
use behavior_tree_ros.ActionNode.Runs.{
  IsSound, set_status, can_tick, IsReady, Step, Reach, ticks, halts, resets, overhears, others,
  here, next,
}
use behavior_tree_ros.ActionNode.Tick.Live.{IsLive, tick_running_sends_nothing}
use behavior_tree_ros.ActionNode.Cancel.{run_callbacks, spin_until_future_complete, halt}
use behavior_tree_ros.ActionNode.Runs.Safety.{
  is_running-cases, Step-IsReady, Reach-keeps, construct_lem,
}
use behavior_tree_ros.ActionNode.Client.{construct}
use behavior_tree_ros.ServiceNode.Runs.{ticks, halts, resets}
use behavior_tree_ros.RosNodeParams.{RosNodeParams}

module _ {G R : Type 0} where
  -- What a tick that goes on may change of a goal that was asked for.
  abbrev Progress : State G R → State G R → Type 0
  Progress s t =
      (t.goal_received ≡ s.goal_received) × (t.goal_handle ≡ s.goal_handle)
      ⊎ (s.goal_received ≡ false) × (t.goal_received ≡ true)

module _ {G F R : Type 0} (api : Api) (e : Env G F R) where
  pub after_goal-same :
      (s : State G R)
      → is_some s.goal_handle ≡ true
      → let t = (after_goal api e s).1 in
        (t.goal_received ≡ s.goal_received) × (t.goal_handle ≡ s.goal_handle)
  unfolding after_goal answer_feedback answer_result checked check_status
  after_goal-same s held = ground (arith, cancel_goal-Steady e s)

  abbrev pub accept : State G R → State G R
  accept u = record u {
    node = record (u.node) {
      goal_received = true;
      goal_handle = e.goal_reply;
      future_goal_handle = false;
    };
  }

  poll-Progress : (s : State G R) → IsLive s → Progress s (poll api e s).1
  unfolding poll await_goal goal_answered accept_reply checked check_status
  poll-Progress s live =
      let t = (run_callbacks e.hooks e.spin_some s).1 in
      let u = (spin_until_future_complete e.hooks t.future_goal_handle e.spin_goal t).1 in
      ground (
        arith,
        live,
        run_callbacks-Keeps e.hooks e.spin_some s,
        spin-Keeps e.hooks t.future_goal_handle e.spin_goal t,
        after_goal-same t,
        after_goal-same (accept u),
      )

  tick-Progress :
      (s : State G R) → IsLive s → (tick api e s).0 ≡ done running → Progress s (tick api e s).1
  unfolding tick tick_connected refresh_client dispatch
  tick-Progress s live on = ground (arith, live, poll-Progress s live)

module _ {G R : Type 0} where
  -- A tick of a running node that goes on moves the goal forward, or not.
  goes_on :
      (s t : State G R)
      → IsLive s
      → IsLive (set_status running t)
      → sent t.calls ≡ sent s.calls
      → Progress s t
      → Move (view s) (view (set_status running t))
  goes_on s t live live' same (inl p) = stays (ground (arith, live, p)) same
  goes_on s t live live' same (inr p) = elim (Option-cases t.goal_handle) [
    | inl none_known ↦ absurd (ground (arith, live'.accepted p.1, none_known))
    | inr (id, known) ↦ accepts id (ground (arith, live, p)) (ground (arith, p, known)) same
  ]

  -- A first tick moves as its status says.
  begins :
      (v : NodeStatus) (s t : State G R)
      → s.status ≡ idle
      → ((g : G) × (v ≡ running) × (sent t.calls ≡ g ∷ sent s.calls) × (t.goal_received ≡ false))
        ⊎ ((is_running v ≡ false) × (sent t.calls ≡ sent s.calls))
      → Move (view s) (view (set_status v t))
  begins v s t first (inl (g, on, one, fresh)) =
      asks g (ground (arith, first)) (ground (arith, on, fresh)) one
  begins v s t first (inr (off, same)) = ends (ground (arith, off)) same

  finishes :
      (v : NodeStatus) (s t : State G R)
      → is_running v ≡ false
      → sent t.calls ≡ sent s.calls
      → Move (view s) (view (set_status v t))
  finishes v s t off same = ends (ground (arith, off)) same

module _ {G F R : Type 0} (api : Api) (e : Env G F R) where
  pub running-sent : (s : State G R) → IsLive s → sent (tick api e s).1.calls ≡ sent s.calls
  running-sent s live = elim (Option-cases s.client_instance) [
    | inl missing ↦ absurd (ground (arith, live.has_client, missing))
    | inr (client, held) ↦ tick_running_sends_nothing api e client s live.on held
  ]

  halt-sent : (s : State G R) → sent (halt e s).1.calls ≡ sent s.calls
  unfolding halt
  halt-sent s = ground (arith, cancel_goal-Steady e s)

  running-Move :
      (v : NodeStatus) (s : State G R)
      → IsLive s
      → IsReady (set_status v (tick api e s).1)
      → (tick api e s).0 ≡ done v
      → Move (view s) (view (set_status v (tick api e s).1))
  running-Move running s live ready' h =
      goes_on s (tick api e s).1 live (ready' refl) (running-sent s live)
        (tick-Progress api e s live h)
  running-Move success s live ready' h =
      finishes success s (tick api e s).1 refl (running-sent s live)
  running-Move failure s live ready' h =
      finishes failure s (tick api e s).1 refl (running-sent s live)
  running-Move idle s live ready' h = finishes idle s (tick api e s).1 refl (running-sent s live)
  running-Move skipped s live ready' h =
      finishes skipped s (tick api e s).1 refl (running-sent s live)

  idle-Move :
      (r : Outcome NodeStatus × State G R) (v : NodeStatus) (s : State G R)
      → s.status ≡ idle
      → Sends api e s r
      → r.0 ≡ done v
      → Move (view s) (view (set_status v r.1))
  idle-Move (done w, t) v s first sends h =
      subst (λ x. Move (view s) (view (set_status x t))) (ground (arith, h))
        (begins w s t first sends)
  idle-Move (throws x, t) v s first sends h = cc
  idle-Move (faults u, t) v s first sends h = cc

  tick-Move :
      (v : NodeStatus) (s : State G R)
      → IsDocumented api
      → IsSound e
      → can_tick s.status ≡ true
      → IsReady s
      → IsReady (set_status v (tick api e s).1)
      → (tick api e s).0 ≡ done v
      → Move (view s) (view (set_status v (tick api e s).1))
  tick-Move v s d sound can ready ready' h = elim (is_running-cases s.status) [
    | inl on ↦ running-Move v s (ready on) ready' h
    | inr off ↦
        let first : s.status ≡ idle = ground (arith, can, off) in
        idle-Move (tick api e s) v s first (tick-Sends api e s d sound first) h
  ]

module _ {G F R : Type 0} (api : Api) where
  Step-Move :
      {s t : State G R} → IsDocumented api → Step F api s t → IsReady s → Move (view s) (view t)
  Step-Move {s} {t} d (ticks e v u sound can h) ready =
      let same = ap (λ r. r.1) h in
      let ready' = Step-IsReady api d (ticks e v u sound can h) ready in
      subst (λ x. Move (view s) (view (set_status v x))) same
        (tick-Move api e v s d sound can ready
          (subst (λ x. IsReady (set_status v x)) (sym same) ready') (ap (λ r. r.0) h))
  Step-Move {s} d (halts e u h) ready = ends refl (ground (arith, h, halt-sent api e s))
  Step-Move {s} d (resets h) ready = ends refl refl
  Step-Move {s} {t} d (overhears h cs u ran) ready =
      let k = run_callbacks-Keeps h cs s in stays (ground (arith, k, ran)) (ground (arith, k, ran))
  Step-Move {s} d (others r) ready = stays refl refl

  Reach-Moves :
      {s t : State G R} → IsDocumented api → Reach F api s t → IsReady s → Moves (view s) (view t)
  Reach-Moves d here ready = none_yet
  Reach-Moves d (next r st) ready =
      then_move (Reach-Moves d r ready) (Step-Move d st (Reach-keeps api d r ready))

  -- With the documented `isStatusCompleted`: a node that was constructed, was then ticked while
  -- IDLE or RUNNING, halted and reset in any order, by ticks and halts that return and with an
  -- `onFailure` that never answers RUNNING to SERVER_UNREACHABLE, and to whose executor and
  -- registry other nodes did anything in between, is from outside a run of a machine that rests,
  -- has asked, or works on the goal of a handle. Each goal that was ever sent took it from rest to
  -- asked, a handle comes only to a goal that was asked for, and every other move sends nothing.
  -- Ticks, halts and callbacks that throw are not considered.
  pub life_refines_machine :
      (e : Env G F R) (port : Option String) (p : RosNodeParams) (s t u : State G R)
      → IsDocumented api
      → construct api e port p s ≡ (done tt, t)
      → Reach F api t u
      → Moves (record { phase = resting; goals = sent t.calls }) (view u)
  life_refines_machine e port p s t u d made r =
      let built : t.status ≡ idle = ground (arith, made, construct_lem api e port p s) in
      subst (λ (x : Phase). Moves (record { phase = x; goals = sent t.calls }) (view u))
        (ground (arith, built)) (Reach-Moves d r (λ on. ground (arith, built)))
