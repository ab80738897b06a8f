-- ===== src/TreeExecutionServer/Execute.antt =====
-- tree_execution_server.cpp: `execute`. The rounds of its loop are a list of what happens in each:
-- `unfinished` says that they are used up and the loop still goes on.
pub mod Ending
pub mod Report
pub mod Progress
pub mod Pacing
pub mod Escapes
pub mod Frame
mod Tests
use behavior_tree_ros.Prelude.{
  Bool, ◌*◌, ◌/◌, ◌∷◌, some, ◌+◌, if◌then◌else◌, not, none, ◌<>◌, false, get_or, true, ltb, [], ◌-◌,
  ℕ, String, Option, List,
}
use behavior_tree_ros.Ros.{NodeStatus, is_success, running}
use behavior_tree_ros.Program.{
  Exception, Outcome, modify, pure, ◌>>=◌, ◌>>◌, gets, lift, when, what, try_catch, Program,
}
use behavior_tree_ros.TreeExecutionServer.{
  Registration, Server, Event, note, published_feedback, called_completed, halted, goal_canceled,
  goal_aborted, ticked, created_tree, execute_registration, slept, called_on_tree_created,
  goal_succeeded, reset_groot_publisher, made_groot_publisher, ActionResult, Goal,
}
use behavior_tree_ros.BtUtils.{convert_node_status}

-- What happens in one round of the loop.
pub record Round : Type 0 where
  -- `rclcpp::ok()` and `goal_handle->is_canceling()`
  pub rclcpp_ok : Bool
  pub is_canceling : Bool
  -- `tree.tickExactlyOnce()`
  pub tick_once : Outcome NodeStatus
  pub on_loop_after_tick : NodeStatus → Outcome (Option NodeStatus)
  pub on_loop_feedback : Outcome (Option String)
  -- `std::chrono::steady_clock::now()`, in nanoseconds
  pub now : ℕ

pub record ExecuteEnv : Type 0 where
  pub registration : Registration
  -- `param_listener->is_old(params)`
  pub is_old : Bool
  -- `factory.createTree`, `onTreeCreated`, the constructor of the Groot2 publisher, `haltTree`
  pub create_tree : Outcome (Unit {0})
  pub on_tree_created : Outcome (Unit {0})
  pub make_groot_publisher : Outcome (Unit {0})
  pub halt_tree : Outcome (Unit {0})
  pub on_tree_execution_completed : NodeStatus → Bool → Outcome (Option String)
  -- `BT::toStr(NodeStatus)`
  pub to_str : NodeStatus → String
  pub start : ℕ
  pub rounds : List Round

-- How the loop was left.
pub data LoopEnd : Type 0 where
  finished : NodeStatus → LoopEnd
  returned unfinished : LoopEnd

-- The period of the loop in nanoseconds: `static_cast<int>(1000.0 / tick_frequency)` milliseconds.
-- The frequency lies between 1 and 1000, where the quotient rounded down is exact.
unfoldable pub period : ℕ → ℕ
period tick_frequency = 1000000 * (1000 / tick_frequency)

abbrev pub set_message : String → Program Server (Unit {0})
set_message m =
    modify λ s. record s { action_result = record (s.action_result) { return_message = m } }

abbrev pub set_status : NodeStatus → Program Server (Unit {0})
set_status status = modify λ s. record s {
  action_result = record (s.action_result) { node_status = convert_node_status status };
}

abbrev pub publish : Option String → Program Server (Unit {0})
publish none = pure tt
publish (some m) = note (published_feedback m)

abbrev pub close_goal : (ActionResult → Event) → Program Server (Unit {0})
close_goal kind = do r ← gets λ s. s.action_result; note (kind r)

module _ (e : ExecuteEnv) where
  -- `onTreeExecutionCompleted`, whose text takes the place of the message.
  unfoldable pub complete : NodeStatus → Bool → String → Program Server (Unit {0})
  complete status was_cancelled message = do
    note (called_completed status was_cancelled)
    text ← lift (e.on_tree_execution_completed status was_cancelled)
    set_message (get_or text message)

  -- The λ `stop_action`.
  unfoldable pub stop_action : NodeStatus → String → Program Server (Unit {0})
  stop_action status message = do
    note halted
    lift e.halt_tree
    set_status status
    complete status true message

  unfoldable pub cancel : NodeStatus → Program Server LoopEnd
  cancel status = do
    stop_action status "Action Server canceling and halting Behavior Tree"
    close_goal goal_canceled
    pure returned

  unfoldable pub abort_after_tick : NodeStatus → Program Server LoopEnd
  abort_after_tick status = do
    stop_action status "Action Server aborted by onLoopAfterTick()"
    close_goal goal_aborted
    pure returned

  -- The end of a round: the feedback, and the sleep until the deadline.
  unfoldable pub end_round : Round → ℕ → Program Server (Unit {0})
  end_round r deadline = do
    lift r.on_loop_feedback >>= publish
    when (ltb r.now deadline) (note (slept (deadline - r.now)))

  -- One round, and what comes after it.
  unfoldable pub after_tick :
      Round → ℕ → (NodeStatus → Program Server LoopEnd) → NodeStatus → Program Server LoopEnd
  after_tick r deadline again status = do
    wanted ← lift (r.on_loop_after_tick status)
    elim wanted [ some v ↦ abort_after_tick v | none ↦ end_round r deadline >> again status ]

  unfoldable pub round : Round → ℕ → (NodeStatus → Program Server LoopEnd) → Program Server LoopEnd
  round r deadline again =
      if not r.rclcpp_ok
      then pure (finished running)
      else if r.is_canceling
      then cancel running
      else (do note ticked; status ← lift r.tick_once; after_tick r deadline again status)

  -- `while(rclcpp::ok() && status == RUNNING)`
  unfoldable pub loop : List Round → ℕ → NodeStatus → ℕ → Program Server LoopEnd
  loop [] step running deadline = pure unfinished
  loop (r ∷ rs) step running deadline =
      round r deadline (λ status. loop rs step status (deadline + step))
  loop rs step status deadline = pure (finished status)

  -- The `try` block.
  unfoldable pub run_tree : Goal → Program Server LoopEnd
  run_tree goal = do
    lift e.create_tree
    modify λ s. record s {
      tree_name = goal.target_tree;
      payload = goal.payload;
      events = created_tree goal.target_tree ∷ s.events;
    }
    note called_on_tree_created
    lift e.on_tree_created
    note reset_groot_publisher
    port ← gets λ s. s.params.groot2_port
    lift e.make_groot_publisher
    note (made_groot_publisher port)
    step ← gets λ s. period s.params.tick_frequency
    loop e.rounds step running (e.start + step)

  -- The `catch` block.
  unfoldable pub abort_on_exception : Exception → Program Server LoopEnd
  abort_on_exception x = do
    set_message ("Behavior Tree exception:" <> what x)
    close_goal goal_aborted
    pure returned

  -- What stands behind the handler, for a loop that was left by its condition.
  unfoldable pub finish : LoopEnd → Program Server LoopEnd
  finish (finished status) = do
    complete status false ("Tree finished with status: " <> e.to_str status)
    set_status status
    close_goal (if is_success status then goal_succeeded else goal_aborted)
    pure returned
  finish returned = pure returned
  finish unfinished = pure unfinished

  unfoldable pub execute : Goal → Program Server LoopEnd
  execute goal = do
    modify λ s. record s { action_result = record { node_status = 0; return_message = "" } }
    when e.is_old (execute_registration e.registration)
    try_catch (run_tree goal) abort_on_exception >>= finish
