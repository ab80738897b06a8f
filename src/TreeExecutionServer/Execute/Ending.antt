-- ===== src/TreeExecutionServer/Execute/Ending.antt =====
-- How often a run of `execute` ends its goal.
use behavior_tree_ros.Prelude.{
  none, some, List, ◌∷◌, ◌≡◌, Bool, arith, [], suc, String, refl, ◌+◌, inl, inr, ℕ,
}
use behavior_tree_ros.Program.{Outcome, done, throws, faults, Program, Outcome-cases}
use behavior_tree_ros.Ros.{NodeStatus, running}
use behavior_tree_ros.TreeExecutionServer.{
  execute_registration, Event, Registration, Server, goal_canceled, goal_succeeded, goal_aborted,
  Goal, made_groot_publisher, reset_groot_publisher, ticked, called_on_tree_created, created_tree,
}
use behavior_tree_ros.TreeExecutionServer.Execute.{
  ExecuteEnv, complete, cancel, abort_after_tick, end_round, loop, LoopEnd, stop_action, Round,
  finished, returned, unfinished, after_tick, round, run_tree, execute, finish, abort_on_exception,
  period,
}

-- How often a goal was brought to an end.
abbrev pub ends : List Event → ℕ
ends [] = 0
ends (goal_canceled r ∷ vs) = suc (ends vs)
ends (goal_succeeded r ∷ vs) = suc (ends vs)
ends (goal_aborted r ∷ vs) = suc (ends vs)
ends (_ ∷ vs) = ends vs

-- What `execute` and its parts do to the count, by how they end.
abbrev pub Ends : ℕ → Outcome LoopEnd × Server → Type 0
Ends n (done returned, t) = ends t.events ≡ suc n
Ends n (done (finished v), t) = ends t.events ≡ n
Ends n (done unfinished, t) = ends t.events ≡ n
Ends n (throws x, t) = ends t.events ≡ n
Ends n (faults u, t) = ends t.events ≡ n

pub execute_registration-events :
    (r : Registration) (s : Server) → (execute_registration r s).1.events ≡ s.events
unfolding execute_registration
execute_registration-events r s = ground arith

module _ (e : ExecuteEnv) where
  complete-ends :
      (v : NodeStatus) (b : Bool) (m : String) (s : Server)
      → ends (complete e v b m s).1.events ≡ ends s.events
  unfolding complete
  complete-ends v b m s = ground arith

  cancel-Ends : (v : NodeStatus) (s : Server) → Ends (ends s.events) (cancel e v s)
  unfolding cancel stop_action complete
  cancel-Ends v s = ground arith

  abort_after_tick-Ends :
      (v : NodeStatus) (s : Server) → Ends (ends s.events) (abort_after_tick e v s)
  unfolding abort_after_tick stop_action complete
  abort_after_tick-Ends v s = ground arith

  end_round-ends :
      (r : Round) (d : ℕ) (s : Server) → ends (end_round e r d s).1.events ≡ ends s.events
  unfolding end_round
  end_round-ends r d s = ground arith

  after_tick-Ends :
      (r : Round) (d : ℕ) (again : NodeStatus → Program Server LoopEnd) (v : NodeStatus)
      (s : Server)
      → Ends (ends (end_round e r d s).1.events) (again v (end_round e r d s).1)
      → Ends (ends s.events) (after_tick e r d again v s)
  unfolding after_tick
  after_tick-Ends r d again v s h = elim (Outcome-cases (r.on_loop_after_tick v)) [
    | inl (none, p) ↦ ground (arith, end_round-ends r d s)
    | inl (some w, p) ↦ rw p (abort_after_tick-Ends w s)
    | inr p ↦ ground arith
  ]

  round-Ends :
      (r : Round) (d : ℕ) (again : NodeStatus → Program Server LoopEnd) (s : Server)
      → ((v : NodeStatus) (t : Server) → Ends (ends t.events) (again v t))
      → Ends (ends s.events) (round e r d again s)
  unfolding round
  round-Ends r d again s h = elim (Outcome-cases r.tick_once) [
    | inl (v, p) ↦
        let t : Server = record s { events = ticked ∷ s.events } in
        ground
          (arith, cancel-Ends running s, after_tick-Ends r d again v t (h v (end_round e r d t).1))
    | inr p ↦ ground (arith, cancel-Ends running s)
  ]

  loop-Ends :
      (rs : List Round) (step : ℕ) (v : NodeStatus) (d : ℕ) (s : Server)
      → Ends (ends s.events) (loop e rs step v d s)
  unfolding loop
  loop-Ends [] step running d s = refl
  loop-Ends (r ∷ rs) step running d s =
      round-Ends r d (λ v. loop e rs step v (d + step)) s (λ v t. loop-Ends rs step v (d + step) t)
  loop-Ends [] step _ d s = refl
  loop-Ends (r ∷ rs) step _ d s = refl

  run_tree-Ends : (g : Goal) (s : Server) → Ends (ends s.events) (run_tree e g s)
  unfolding run_tree
  run_tree-Ends g s =
      let t : Server = record s {
        tree_name = g.target_tree;
        payload = g.payload;
        events =
            made_groot_publisher s.params.groot2_port
            ∷ reset_groot_publisher
            ∷ called_on_tree_created
            ∷ created_tree g.target_tree
            ∷ s.events;
      } in
      let step = period s.params.tick_frequency in
      ground (arith, loop-Ends e.rounds step running (e.start + step) t)

  -- A run of `execute` that returns has ended its goal exactly once: canceled, succeeded or
  -- aborted. A run whose loop goes on, or that an exception leaves, has not ended it.
  pub execute-Ends : (g : Goal) (s : Server) → Ends (ends s.events) (execute e g s)
  unfolding execute finish complete abort_on_exception
  execute-Ends g s =
      let s1 : Server = record s {
        action_result = record { node_status = 0; return_message = "" };
      } in
      let s2 = (execute_registration e.registration s1).1 in
      ground (
        arith,
        execute_registration-events e.registration s1,
        run_tree-Ends g s1,
        run_tree-Ends g s2,
      )
