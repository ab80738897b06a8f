-- ===== src/TreeExecutionServer/Execute/Progress.antt =====
-- How far a run of `execute` gets.
use behavior_tree_ros.Prelude.{
  none, some, List, ◌∷◌, ◌≡◌, Bool, arith, [], refl, ◌+◌, inl, inr, Option, ◌&&◌, true, false, not,
  ◌≢◌, ℕ,
}
use behavior_tree_ros.Program.{Outcome, done, Program, Outcome-cases, is_done}
use behavior_tree_ros.Ros.{NodeStatus, running, is_running}
use behavior_tree_ros.TreeExecutionServer.{
  execute_registration, Server, Goal, made_groot_publisher, reset_groot_publisher, ticked,
  called_on_tree_created, created_tree,
}
use behavior_tree_ros.TreeExecutionServer.Execute.{
  ExecuteEnv, complete, cancel, abort_after_tick, end_round, loop, LoopEnd, Round, unfinished,
  after_tick, round, run_tree, execute, finish, abort_on_exception, period,
}

abbrev pub is_running_tick : Outcome NodeStatus → Bool
is_running_tick (done v) = is_running v
is_running_tick _ = false

abbrev is_silent : Outcome (Option NodeStatus) → Bool
is_silent (done none) = true
is_silent _ = false

-- A round in which nothing ends the run.
abbrev pub goes_on : Round → Bool
goes_on r =
    r.rclcpp_ok
    && not r.is_canceling
    && is_running_tick r.tick_once
    && is_silent (r.on_loop_after_tick running)
    && is_done r.on_loop_feedback

abbrev pub all_go_on : List Round → Bool
all_go_on [] = true
all_go_on (r ∷ rs) = goes_on r && all_go_on rs

module _ (e : ExecuteEnv) where
  end_round-outcome :
      (r : Round) (d : ℕ) (s : Server) → is_done (end_round e r d s).0 ≡ is_done r.on_loop_feedback
  unfolding end_round
  end_round-outcome r d s = ground arith

  cancel_returns : (v : NodeStatus) (s : Server) → (cancel e v s).0 ≢ done unfinished
  unfolding cancel
  cancel_returns v s = ground arith

  abort_returns : (v : NodeStatus) (s : Server) → (abort_after_tick e v s).0 ≢ done unfinished
  unfolding abort_after_tick
  abort_returns v s = ground arith

  after_tick_unfinished :
      (r : Round) (d : ℕ) (again : NodeStatus → Program Server LoopEnd) (v : NodeStatus)
      (s : Server)
      → (after_tick e r d again v s).0 ≡ done unfinished
      → (is_silent (r.on_loop_after_tick v) ≡ true)
        × (is_done r.on_loop_feedback ≡ true)
        × ((again v (end_round e r d s).1).0 ≡ done unfinished)
  unfolding after_tick
  after_tick_unfinished r d again v s h = elim (Outcome-cases (r.on_loop_after_tick v)) [
    | inl (none, p) ↦ ground (arith, end_round-outcome r d s)
    | inl (some u, p) ↦ ground (arith, abort_returns u s)
    | inr p ↦ ground arith
  ]

  loop_unfinished :
      (rs : List Round) (step d : ℕ) (v : NodeStatus) (s : Server)
      → (loop e rs step v d s).0 ≡ done unfinished
      → (v ≡ running) × (all_go_on rs ≡ true)
  unfolding loop round
  loop_unfinished [] step d running s h = (refl, refl)
  loop_unfinished (r ∷ rs) step d running s h = elim (Outcome-cases r.tick_once) [
    | inl (v, p) ↦
        let t : Server = record s { events = ticked ∷ s.events } in
        let again = λ (x : NodeStatus). loop e rs step x (d + step) in
        ground (
          arith,
          cancel_returns running s,
          after_tick_unfinished r d again v t,
          loop_unfinished rs step (d + step) v (end_round e r d t).1,
        )
    | inr p ↦ ground (arith, cancel_returns running s)
  ]
  loop_unfinished [] step d _ s h = cc
  loop_unfinished (r ∷ rs) step d _ s h = cc

  run_tree_unfinished :
      (g : Goal) (s : Server) → (run_tree e g s).0 ≡ done unfinished → all_go_on e.rounds ≡ true
  unfolding run_tree
  run_tree_unfinished g s h =
      let t : Server = record s {
        tree_name = g.target_tree;
        payload = g.payload;
        events =
            made_groot_publisher s.params.groot2_port
            ∷ reset_groot_publisher
            ∷ called_on_tree_created
            ∷ created_tree g.target_tree
            ∷ s.events;
      } in
      let step = period s.params.tick_frequency in
      ground (arith, loop_unfinished e.rounds step (e.start + step) running t)

  -- A run whose rounds are used up while its loop goes on has gone through rounds of which none
  -- ended it: in each, rclcpp was up, no cancel was requested, the tree was ticked and is RUNNING,
  -- `onLoopAfterTick` asked for nothing, and nothing was thrown.
  pub execute_unfinished :
      (g : Goal) (s : Server) → (execute e g s).0 ≡ done unfinished → all_go_on e.rounds ≡ true
  unfolding execute run_tree finish complete abort_on_exception
  execute_unfinished g s h =
      let s1 : Server = record s {
        action_result = record { node_status = 0; return_message = "" };
      } in
      let s2 = (execute_registration e.registration s1).1 in
      ground (arith, run_tree_unfinished g s1, run_tree_unfinished g s2)
