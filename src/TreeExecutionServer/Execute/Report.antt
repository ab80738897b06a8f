-- ===== src/TreeExecutionServer/Execute/Report.antt =====
-- What `execute` reports to the client, against a plain account of the rounds.
use mathlib.Core.List.{head?}
use behavior_tree_ros.Ros.{NodeStatus, is_success, running, is_running}
use behavior_tree_ros.Program.{
  Outcome, Exception, Fault, done, throws, faults, what, Program, Outcome-cases,
}
use behavior_tree_ros.Prelude.{
  List, Option, String, Bool, ◌∷◌, ◌≡◌, if◌then◌else◌, some, ℕ, not, arith, none, [], true, get_or,
  false, ◌<>◌, inl, inr, ◌+◌, ◌⊎◌, refl,
}
use behavior_tree_ros.TreeExecutionServer.{
  ActionResult, Event, Server, goal_succeeded, goal_aborted, goal_canceled, ticked, Goal,
  made_groot_publisher, reset_groot_publisher, called_on_tree_created, created_tree,
}
use behavior_tree_ros.TreeExecutionServer.Execute.{
  ExecuteEnv, Round, LoopEnd, cancel, abort_after_tick, loop, stop_action, finished, complete,
  unfinished, returned, end_round, after_tick, round, execute, run_tree, finish, abort_on_exception,
  period,
}
use behavior_tree_ros.BtUtils.{convert_node_status}

-- Why a run ends: the loop's condition, a cancel request, `onLoopAfterTick`, or an exception.
pub data Verdict : Type 0 where
  left : NodeStatus → Verdict
  cancelled : Verdict
  stopped_by_user : NodeStatus → Verdict
  raised : Exception → Verdict
  broken : Fault → Verdict
  going : Verdict

abbrev pub after_feedback : Outcome (Option String) → Verdict → Verdict
after_feedback (done m) v = v
after_feedback (throws x) v = raised x
after_feedback (faults u) v = broken u

abbrev pub after_hook : Outcome (Option NodeStatus) → Verdict → Verdict
after_hook (done none) v = v
after_hook (done (some w)) v = stopped_by_user w
after_hook (throws x) v = raised x
after_hook (faults u) v = broken u

-- The first round that ends the run, read off the rounds alone.
unfoldable pub verdict : List Round → Verdict
verdict [] = going
verdict (r ∷ rs) =
    let rest = verdict rs in
    if not r.rclcpp_ok
    then left running
    else if r.is_canceling
    then cancelled
    else elim r.tick_once [
      | done v ↦
          after_hook (r.on_loop_after_tick v)
            (after_feedback r.on_loop_feedback (if is_running v then rest else left v))
      | throws x ↦ raised x
      | faults u ↦ broken u
    ]

abbrev pub result : NodeStatus → String → ActionResult
result v m = record { node_status = convert_node_status v; return_message = m }

abbrev pub no_answer : ActionResult
no_answer = record { node_status = 0; return_message = "" }

-- How the loop is left.
abbrev outcome_of : Verdict → Outcome LoopEnd
outcome_of (left v) = done (finished v)
outcome_of cancelled = done returned
outcome_of (stopped_by_user w) = done returned
outcome_of (raised x) = throws x
outcome_of (broken u) = faults u
outcome_of going = done unfinished

abbrev is_left : Verdict → Bool
is_left (left v) = true
is_left _ = false

Verdict-cases : (w : Verdict) → ((v : NodeStatus) × (w ≡ left v)) ⊎ (is_left w ≡ false)
Verdict-cases (left v) = inl (v, refl)
Verdict-cases cancelled = inr refl
Verdict-cases (stopped_by_user w) = inr refl
Verdict-cases (raised x) = inr refl
Verdict-cases (broken u) = inr refl
Verdict-cases going = inr refl

-- Has the loop itself ended the goal?
abbrev is_closed : Verdict → Bool
is_closed cancelled = true
is_closed (stopped_by_user w) = true
is_closed _ = false

module _ (e : ExecuteEnv) (texts : NodeStatus → Bool → Option String) where
  -- How the goal is brought to an end, with which status and message.
  unfoldable pub closing : Verdict → Option Event
  closing (left v) = some (
      (if is_success v then goal_succeeded else goal_aborted)
        (result v (get_or (texts v false) ("Tree finished with status: " <> e.to_str v))))
  closing cancelled = some (
      goal_canceled (
        result running
          (get_or (texts running true) "Action Server canceling and halting Behavior Tree")))
  closing (stopped_by_user w) =
      some (
        goal_aborted
          (result w (get_or (texts w true) "Action Server aborted by onLoopAfterTick()")))
  closing (raised x) = some (
      goal_aborted
        (record { node_status = 0; return_message = "Behavior Tree exception:" <> what x }))
  closing (broken u) = none
  closing going = none

  -- What the loop leaves behind, for each verdict.
  abbrev Described : Verdict → Outcome LoopEnd × Server → Type 0
  Described v (o, t) =
      (o ≡ outcome_of v)
      × (is_closed v ≡ true → head? t.events ≡ closing v)
      × (is_closed v ≡ false → t.action_result ≡ no_answer)

  -- The derived class's last callback returns, and the tree can be halted.
  pub record Answers : Type 0 where
    pub halts : e.halt_tree ≡ done tt
    pub tells : (v : NodeStatus) (b : Bool) → e.on_tree_execution_completed v b ≡ done (texts v b)

  module _ (a : Answers) where
    cancel-Described : (s : Server) → Described cancelled (cancel e running s)
    unfolding cancel stop_action complete closing
    cancel-Described s = ground (arith, a.halts, a.tells running true)

    abort-Described :
        (w : NodeStatus) (s : Server) → Described (stopped_by_user w) (abort_after_tick e w s)
    unfolding abort_after_tick stop_action complete closing
    abort-Described w s = ground (arith, a.halts, a.tells w true)

    end_round-result :
        (r : Round) (d : ℕ) (s : Server) → (end_round e r d s).1.action_result ≡ s.action_result
    unfolding end_round
    end_round-result r d s = ground arith

    after_tick-Described :
        (r : Round) (d : ℕ) (again : NodeStatus → Program Server LoopEnd) (v : NodeStatus)
        (s : Server) (w : Verdict)
        → s.action_result ≡ no_answer
        → Described w (again v (end_round e r d s).1)
        → Described
            (after_hook (r.on_loop_after_tick v) (after_feedback r.on_loop_feedback w))
            (after_tick e r d again v s)
    unfolding after_tick end_round
    after_tick-Described r d again v s w h k = elim (Outcome-cases (r.on_loop_after_tick v)) [
      | inl (none, p) ↦ ground arith
      | inl (some u, p) ↦ rw p (abort-Described u s)
      | inr p ↦ ground arith
    ]

    loop-Described :
        (rs : List Round) (step d : ℕ) (v : NodeStatus) (s : Server)
        → s.action_result ≡ no_answer
        → Described (if is_running v then verdict rs else left v) (loop e rs step v d s)
    unfolding loop round verdict
    loop-Described [] step d running s h = ground arith
    loop-Described (r ∷ rs) step d running s h = elim (Outcome-cases r.tick_once) [
      | inl (v, p) ↦
          let t : Server = record s { events = ticked ∷ s.events } in
          let again = λ (x : NodeStatus). loop e rs step x (d + step) in
          ground (
            arith,
            cancel-Described s,
            after_tick-Described r d again v t (if is_running v then verdict rs else left v) h (
                loop-Described rs step (d + step) v (end_round e r d t).1
                  (ground (arith, end_round-result r d t))),
          )
      | inr p ↦ ground (arith, cancel-Described s)
    ]
    loop-Described [] step d _ s h = ground arith
    loop-Described (r ∷ rs) step d _ s h = ground arith

    -- Where the parameters are not old, the tree can be made and halted, and the callbacks
    -- `onTreeCreated` and `onTreeExecutionCompleted` return: a run of `execute` that the rounds
    -- bring to an end reports the end that a plain account of the rounds calls for. The first round
    -- that ends the run decides whether the goal is canceled, succeeded or aborted, and the status
    -- and the message of the result; the text that `onTreeExecutionCompleted` gives takes the place
    -- of the message.
    pub execute_reports :
        (g : Goal) (s : Server) (ending : Event)
        → e.is_old ≡ false
        → e.create_tree ≡ done tt
        → e.on_tree_created ≡ done tt
        → e.make_groot_publisher ≡ done tt
        → closing (verdict e.rounds) ≡ some ending
        → let (o, t) = execute e g s in (o ≡ done returned) × (head? t.events ≡ some ending)
    unfolding execute run_tree finish complete abort_on_exception closing
    execute_reports g s ending fresh made told shown closed =
        let t : Server = record s {
          action_result = no_answer;
          tree_name = g.target_tree;
          payload = g.payload;
          events =
              made_groot_publisher s.params.groot2_port
              ∷ reset_groot_publisher
              ∷ called_on_tree_created
              ∷ created_tree g.target_tree
              ∷ s.events;
        } in
        let step = period s.params.tick_frequency in
        let d = loop-Described e.rounds step (e.start + step) running t refl in
        let said = λ (v : NodeStatus). a.tells v false in
        elim (Verdict-cases (verdict e.rounds)) [
          | inl (v, p) ↦ ground (arith, d, said v)
          | inr p ↦ ground (arith, d)
        ]
