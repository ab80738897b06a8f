-- ===== src/Samples/SleepServer.antt =====
-- sleep_server.cpp. The rounds of the loop of `execute` are a list of what happens in each:
-- `unfinished` says that they are used up and the loop still goes on. Times are nanoseconds.
pub mod Ending
use behavior_tree_ros.Prelude.{
  ℕ, ◌∷◌, not, if◌then◌else◌, ltb, ◌-◌, true, ◌+◌, false, [], ◌^◌, List, Bool,
}
use behavior_tree_ros.Samples.SleepAction.{Goal}
use behavior_tree_ros.Ros.{Api}
use behavior_tree_ros.Program.{Program, modify, pure, when, ◌>>=◌, ◌>>◌, fault, signed_overflow}

pub data Event : Type 0 where
  published_feedback : ℕ → Event
  slept : Event
  goal_canceled goal_succeeded : Bool → Event

pub data GoalResponse : Type 0 where
  accept_and_execute : GoalResponse

pub data CancelResponse : Type 0 where
  accept : CancelResponse

unfoldable pub handle_goal : Goal → GoalResponse
handle_goal goal = accept_and_execute

unfoldable pub handle_cancel : ℕ → CancelResponse
handle_cancel goal_handle = accept

-- `handle_accepted` starts a thread of its own for each goal, and detaches it.
unfoldable pub handle_accepted : ℕ → List ℕ → List ℕ
handle_accepted goal_handle threads = goal_handle ∷ threads

-- What happens in one round: the clock at the loop's test, and `goal_handle->is_canceling()`.
pub record Round : Type 0 where
  pub time : ℕ
  pub is_canceling : Bool

pub record Env : Type 0 where
  pub start : ℕ
  pub rounds : List Round
  -- `rclcpp::ok()` after the loop
  pub rclcpp_ok : Bool

pub data LoopEnd : Type 0 where
  finished returned unfinished : LoopEnd

-- The number that an `int32` stands for is negative.
abbrev pub is_negative : ℕ → Bool
is_negative w = not (ltb w (2 ^ 31))

-- `now + rclcpp::Duration::from_seconds(double(goal->msec_timeout) / 1000)`, with a clock that
-- counts from so long ago that the sum is not negative.
unfoldable pub deadline_of : Api → ℕ → Goal → ℕ
deadline_of api start goal =
    if is_negative goal.msec_timeout
    then start - api.from_seconds (2 ^ 32 - goal.msec_timeout)
    else start + api.from_seconds goal.msec_timeout

abbrev pub note : Event → Program (List Event) (Unit {0})
note v = modify λ vs. v ∷ vs

-- `cycle++` on an `int`.
unfoldable pub increment : ℕ → Program (List Event) ℕ
increment cycle = if ltb (cycle + 1) (2 ^ 31) then pure (cycle + 1) else fault signed_overflow

-- The part of a round after its test for a cancel, and the rest of the loop.
unfoldable pub publish : ℕ → (ℕ → Program (List Event) LoopEnd) → Program (List Event) LoopEnd
publish cycle again = do
  next_cycle ← increment cycle
  note (published_feedback cycle)
  note slept
  again next_cycle

-- `while(get_clock()->now() < deadline)`
unfoldable pub loop : List Round → ℕ → ℕ → Program (List Event) LoopEnd
loop [] deadline cycle = pure unfinished
loop (r ∷ rs) deadline cycle =
    if not (ltb r.time deadline)
    then pure finished
    else if r.is_canceling
    then (note (goal_canceled false) >> pure returned)
    else publish cycle (λ next_cycle. loop rs deadline next_cycle)

-- What stands behind the loop.
unfoldable pub finish : Bool → LoopEnd → Program (List Event) LoopEnd
finish rclcpp_ok finished = when rclcpp_ok (note (goal_succeeded true)) >> pure returned
finish rclcpp_ok returned = pure returned
finish rclcpp_ok unfinished = pure unfinished

unfoldable pub execute : Api → Env → Goal → Program (List Event) LoopEnd
execute api e goal = loop e.rounds (deadline_of api e.start goal) 0 >>= finish e.rclcpp_ok
