-- ===== src/TreeExecutionServer/Execute/Pacing.antt =====
-- How the loop of `execute` keeps time.
use behavior_tree_ros.TreeExecutionServer.Execute.{
  period, Round, round, loop, after_tick, end_round, LoopEnd, execute, run_tree, finish, complete,
  abort_on_exception, unfinished, ExecuteEnv,
}
use behavior_tree_ros.Prelude.{
  List, ◌≤◌, ◌*◌, ◌∷◌, ◌<◌, ◌+◌, arith, suc, ◌≡◌, [], if◌then◌else◌, true, ltb, ◌-◌, refl, ◌∙◌, ap,
  inl, inr, false, ℕ,
}
use behavior_tree_ros.TreeExecutionServer.{
  Event, Server, slept, ticked, Goal, made_groot_publisher, reset_groot_publisher,
  called_on_tree_created, created_tree,
}
use behavior_tree_ros.TreeExecutionServer.Execute.Progress.{all_go_on, goes_on}
use behavior_tree_ros.Ros.{NodeStatus, running}
use behavior_tree_ros.Program.{Program, done, Outcome-cases}

-- For the frequencies that the parameters admit, the period is between a millisecond and a second, and
-- shorter than the exact one by less than a millisecond.
period_bounds :
    (f : ℕ)
    → 1 ≤ f
    → f ≤ 1000
    → (1000000 ≤ period f)
      × (period f ≤ 1000000000)
      × (f * period f ≤ 1000000000)
      × (1000000000 < f * (period f + 1000000))
unfolding period
period_bounds f low high = grind arith

-- The sleeps among the events, the latest first.
abbrev pub sleeps : List Event → List ℕ
sleeps [] = []
sleeps (slept n ∷ vs) = n ∷ sleeps vs
sleeps (_ ∷ vs) = sleeps vs

-- Round `k` sleeps until `k + 1` periods after the start, and not at all where that has passed.
unfoldable pub planned : ℕ → ℕ → ℕ → List Round → List ℕ → List ℕ
planned start step k [] before = before
planned start step k (r ∷ rs) before =
    let deadline = start + suc k * step in
    planned start step (suc k) rs
      (if ltb r.now deadline then (deadline - r.now) ∷ before else before)

module _ (e : ExecuteEnv) where
  abbrev ticked_state : Server → Server
  ticked_state s = record s { events = ticked ∷ s.events }

  end_round_lem :
      (r : Round) (d : ℕ) (s : Server)
      → goes_on r ≡ true
      → ((end_round e r d s).0 ≡ done tt)
        × (sleeps (end_round e r d s).1.events
            ≡ (if ltb r.now d then (d - r.now) ∷ sleeps s.events else sleeps s.events))
  unfolding end_round
  end_round_lem r d s goes = ground arith

  round_lem :
      (r : Round) (d : ℕ) (again : NodeStatus → Program Server LoopEnd) (s : Server)
      → goes_on r ≡ true
      → round e r d again s ≡ again running (end_round e r d (ticked_state s)).1
  unfolding round after_tick
  round_lem r d again s goes = elim (Outcome-cases r.tick_once) [
    | inl (v, p) ↦ ground (arith, end_round_lem r d (ticked_state s) goes)
    | inr p ↦ ground arith
  ]

  loop-sleeps :
      (rs : List Round) (start step k d : ℕ) (s : Server)
      → all_go_on rs ≡ true
      → d ≡ start + suc k * step
      → sleeps (loop e rs step running d s).1.events ≡ planned start step k rs (sleeps s.events)
  unfolding loop planned
  loop-sleeps [] start step k d s go same = refl
  loop-sleeps (r ∷ rs) start step k d s go same =
      let t = (end_round e r d (ticked_state s)).1 in
      let goes : goes_on r ≡ true = ground (arith, go) in
      let rest : all_go_on rs ≡ true = ground (arith, go) in
      let next : d + step ≡ start + suc (suc k) * step = grind (arith, same) in
      rw (round_lem r d (λ v. loop e rs step v (d + step)) s goes) (
        loop-sleeps rs start step (suc k) (d + step) t rest next
        ∙ ap (planned start step (suc k) rs) (
            (end_round_lem r d (ticked_state s) goes).1
            ∙ ap (λ x. if ltb r.now x then (x - r.now) ∷ sleeps s.events else sleeps s.events)
                same))

  loop_goes_on :
      (rs : List Round) (step d : ℕ) (s : Server)
      → all_go_on rs ≡ true
      → (loop e rs step running d s).0 ≡ done unfinished
  unfolding loop
  loop_goes_on [] step d s go = refl
  loop_goes_on (r ∷ rs) step d s go =
      rw (round_lem r d (λ v. loop e rs step v (d + step)) s (ground (arith, go)))
        (loop_goes_on rs step (d + step) (end_round e r d (ticked_state s)).1 (ground (arith, go)))

  -- The loop does not drift: where the parameters are not old, the tree and the publisher for Groot
  -- can be made, `onTreeCreated` returns and no round ends the run, round `k` asks `sleep` for the
  -- time that is left until `k + 1` periods after the start, and for nothing where its work took
  -- longer, so a late round is made up for by the next ones. How long such a sleep lasts, which a
  -- wake-up signal may cut short, is not said.
  pub execute_paces :
      (g : Goal) (s : Server)
      → e.is_old ≡ false
      → e.create_tree ≡ done tt
      → e.on_tree_created ≡ done tt
      → e.make_groot_publisher ≡ done tt
      → all_go_on e.rounds ≡ true
      → sleeps (execute e g s).1.events
        ≡ planned e.start (period s.params.tick_frequency) 0 e.rounds (sleeps s.events)
  unfolding execute run_tree finish complete abort_on_exception
  execute_paces g s fresh made told shown go =
      let t : Server = record s {
        action_result = record { node_status = 0; return_message = "" };
        tree_name = g.target_tree;
        payload = g.payload;
        events =
            made_groot_publisher s.params.groot2_port
            ∷ reset_groot_publisher
            ∷ called_on_tree_created
            ∷ created_tree g.target_tree
            ∷ s.events;
      } in
      let step = period s.params.tick_frequency in
      ground (
        arith,
        loop_goes_on e.rounds step (e.start + step) t go,
        loop-sleeps e.rounds e.start step 0 (e.start + step) t go (grind arith),
      )
