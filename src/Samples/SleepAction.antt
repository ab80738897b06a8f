-- ===== src/Samples/SleepAction.antt =====
-- sleep_action.hpp and sleep_action.cpp, and `PrintValue` of sleep_client.cpp. A 32-bit integer is its
-- bit pattern. The feedback is the server's count of cycles, the result its flag `done`.
use behavior_tree_ros.ActionNode.{
  default_on_failure, WrappedResult, Hooks, default_on_feedback, ActionNodeErrorCode,
}
use behavior_tree_ros.Prelude.{
  ℕ, Bool, String, some, if◌then◌else◌, ◌∷◌, [], ◌<>◌, none, ◌%◌, ◌^◌, Option,
}
use behavior_tree_ros.Program.{Outcome, done, faults, null_pointer, throws}
use behavior_tree_ros.Ports.{action_ports, PortsList, bare_port}
use behavior_tree_ros.Ros.{NodeStatus, failure, success}

-- btcpp_ros2_interfaces/action/Sleep.action
pub record Goal : Type 0 where
  pub msec_timeout : ℕ

-- `setGoal`, where the argument is `getInput<unsigned>("msec").value()`, which throws where the port
-- has no value; the unsigned number is stored in an `int32`.
abbrev pub set_goal : Outcome ℕ → Outcome (Option Goal)
set_goal (done msec) = done (some (record { msec_timeout = msec % 2 ^ 32 }))
set_goal (throws e) = throws e
set_goal (faults u) = faults u

-- `onResultReceived` reads the result through its pointer.
abbrev pub on_result_received : WrappedResult Bool → Outcome NodeStatus
on_result_received wr = elim wr.result [
  | some is_done ↦ done (if is_done then success else failure)
  | none ↦ faults null_pointer
]

-- `onFailure(error)`; the other `onFailure` is inherited.
abbrev pub on_failure : ActionNodeErrorCode → Outcome NodeStatus
on_failure error = done failure

abbrev pub on_halt : Outcome (Unit {0})
on_halt = done tt

-- The class, as the virtual functions that a RosActionNode calls.
abbrev pub sleep_hooks : Outcome ℕ → Hooks Goal ℕ Bool
sleep_hooks msec = record {
  set_goal = set_goal msec;
  on_result_received = on_result_received;
  on_feedback = default_on_feedback;
  on_failure = default_on_failure on_failure;
  on_failure_code = on_failure;
  on_halt_hook = on_halt;
}

unfoldable pub provided_ports : PortsList
unfolding action_ports
provided_ports = action_ports (("msec", bare_port "unsigned") ∷ [])

-- `PrintValue::tick`, with what it prints.
unfoldable pub print_value : Option String → NodeStatus × String
print_value none = (failure, "PrintValue FAILED ")
print_value (some message) = (success, "PrintValue: " <> message)
