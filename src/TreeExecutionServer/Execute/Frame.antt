-- ===== src/TreeExecutionServer/Execute/Frame.antt =====
-- What a run of `execute` changes of the server, and what it leaves alone.
use behavior_tree_ros.Program.{Program, Outcome, Outcome-cases, is_done, done}
use behavior_tree_ros.TreeExecutionServer.{
  Server, Goal, ticked, execute_registration, created_tree, called_on_tree_created,
  reset_groot_publisher, made_groot_publisher, Registration,
}
use behavior_tree_ros.TreeExecutionServer.Execute.{
  ExecuteEnv, Round, LoopEnd, complete, stop_action, cancel, abort_after_tick, end_round,
  after_tick, round, loop, run_tree, period, execute, finish, abort_on_exception,
}
use behavior_tree_ros.Ros.{NodeStatus, running}
use behavior_tree_ros.Prelude.{
  ℕ, String, Bool, List, none, some, [], ◌∷◌, ◌≡◌, ◌+◌, arith, inl, inr, if◌then◌else◌, ◌&&◌,
}
use behavior_tree_ros.TreeExecutionServer.Getters.{goal_payload, factory, tree_name}

-- The members other than the result and the events are the same.
record Same (s t : Server) : Type 0 where
  name : t.tree_name ≡ s.tree_name
  payload : t.payload ≡ s.payload
  params : t.params ≡ s.params
  initialized : t.factory_initialized ≡ s.factory_initialized
  calls : t.factory_calls ≡ s.factory_calls

Same-refl : (s : Server) → Same s s
Same-refl s = ground arith

execute_registration-names :
    (r : Registration) (s : Server)
    → let (o, t) = execute_registration r s in (t.tree_name ≡ s.tree_name) × (t.payload ≡ s.payload)
unfolding execute_registration
execute_registration-names r s = ground arith

module _ (e : ExecuteEnv) where
  complete-Same :
      (v : NodeStatus) (b : Bool) (m : String) (s : Server) → Same s (complete e v b m s).1
  unfolding complete
  complete-Same v b m s = ground arith

  cancel-Same : (v : NodeStatus) (s : Server) → Same s (cancel e v s).1
  unfolding cancel stop_action complete
  cancel-Same v s = ground arith

  abort_after_tick-Same : (v : NodeStatus) (s : Server) → Same s (abort_after_tick e v s).1
  unfolding abort_after_tick stop_action complete
  abort_after_tick-Same v s = ground arith

  end_round-Same : (r : Round) (d : ℕ) (s : Server) → Same s (end_round e r d s).1
  unfolding end_round
  end_round-Same r d s = ground arith

  after_tick-Same :
      (r : Round) (d : ℕ) (again : NodeStatus → Program Server LoopEnd) (v : NodeStatus)
      (s : Server)
      → Same (end_round e r d s).1 (again v (end_round e r d s).1).1
      → Same s (after_tick e r d again v s).1
  unfolding after_tick
  after_tick-Same r d again v s h = elim (Outcome-cases (r.on_loop_after_tick v)) [
    | inl (none, p) ↦ ground (arith, end_round-Same r d s)
    | inl (some w, p) ↦ rw p (abort_after_tick-Same w s)
    | inr p ↦ ground arith
  ]

  round-Same :
      (r : Round) (d : ℕ) (again : NodeStatus → Program Server LoopEnd) (s : Server)
      → ((v : NodeStatus) (t : Server) → Same t (again v t).1)
      → Same s (round e r d again s).1
  unfolding round
  round-Same r d again s h = elim (Outcome-cases r.tick_once) [
    | inl (v, p) ↦
        let t : Server = record s { events = ticked ∷ s.events } in
        ground
          (arith, cancel-Same running s, after_tick-Same r d again v t (h v (end_round e r d t).1))
    | inr p ↦ ground (arith, cancel-Same running s)
  ]

  loop-Same :
      (rs : List Round) (step : ℕ) (v : NodeStatus) (d : ℕ) (s : Server)
      → Same s (loop e rs step v d s).1
  unfolding loop
  loop-Same [] step running d s = Same-refl s
  loop-Same (r ∷ rs) step running d s =
      round-Same r d (λ v. loop e rs step v (d + step)) s (λ v t. loop-Same rs step v (d + step) t)
  loop-Same [] step _ d s = Same-refl s
  loop-Same (r ∷ rs) step _ d s = Same-refl s

-- The server with the names of a goal.
abbrev pub named : Goal → Server → Server
named g s = record s { tree_name = g.target_tree; payload = g.payload }

module _ (e : ExecuteEnv) where
  run_tree-Same :
      (g : Goal) (s : Server)
      → Same (if is_done e.create_tree then named g s else s) (run_tree e g s).1
  unfolding run_tree
  run_tree-Same g s =
      let t : Server = record (named g s) {
        events =
            made_groot_publisher s.params.groot2_port
            ∷ reset_groot_publisher
            ∷ called_on_tree_created
            ∷ created_tree g.target_tree
            ∷ s.events;
      } in
      let step = period s.params.tick_frequency in
      ground (arith, loop-Same e e.rounds step running (e.start + step) t)

  -- What the registration leaves, where there is one.
  abbrev pub registered : Server → Outcome (Unit {0}) × Server
  registered s = if e.is_old then execute_registration e.registration s else (done tt, s)

  abbrev pub without_result : Server → Server
  without_result s = record s { action_result = record { node_status = 0; return_message = "" } }

  execute-Same :
      (g : Goal) (s : Server)
      → let (o, t) = registered (without_result s) in
        Same (if is_done o && is_done e.create_tree then named g t else t) (execute e g s).1
  unfolding execute finish complete abort_on_exception
  execute-Same g s =
      let s0 = without_result s in
      let s1 = (execute_registration e.registration s0).1 in
      ground (arith, run_tree-Same g s0, run_tree-Same g s1)

  -- However a run of `execute` ends: `treeName` and `goalPayload` tell its goal's afterwards
  -- exactly if the registration, where the parameters are old, returned and the tree could be made.
  -- Else they tell what they told before, though tree_execution_server.hpp says that `goalPayload`
  -- is the payload received in the last goal. The factory, the parameters and whether the server is
  -- initialised are as that registration left them, and as they were where there was none.
  pub execute_names_tree :
      (g : Goal) (s : Server)
      → let (o, r) = registered (without_result s) in
        let t = (execute e g s).1 in
        let made = is_done o && is_done e.create_tree in
        (tree_name t ≡ (if made then g.target_tree else tree_name s))
        × (goal_payload t ≡ (if made then g.payload else goal_payload s))
        × (factory t ≡ factory r)
        × (t.params ≡ r.params)
        × (t.factory_initialized ≡ r.factory_initialized)
  unfolding tree_name goal_payload factory
  execute_names_tree g s =
      let s0 = without_result s in
      let k = execute-Same g s in
      let n = execute_registration-names e.registration s0 in
      (
        ground (arith, k, n),
        ground (arith, k, n),
        ground (arith, k, n),
        ground (arith, k, n),
        ground (arith, k, n),
      )
