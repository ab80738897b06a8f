-- ===== src/ActionNode/Cancel.antt =====
-- bt_action_node.hpp: the three callbacks of a goal, `cancelGoal` and `halt`.
pub mod Handles
use behavior_tree_ros.Prelude.{
  ℕ, Bool, true, false, Option, none, some, List, [], ◌∷◌, ◌==◌, if◌then◌else◌,
}
use behavior_tree_ros.Program.{
  Program, std_logic_error, null_pointer, invalid_future, ◌>>=◌, ◌>>◌, pure, throw, fault, lift,
  gets, modify, when,
}
use behavior_tree_ros.Ros.{NodeStatus, is_running, is_idle, FutureReturnCode, is_complete}
use behavior_tree_ros.ActionNode.{
  RosActionNode, State, Env, Hooks, Call, Callback, Spin, WrappedResult, feedback_callback,
  result_callback, goal_response_callback, async_get_result, async_cancel_goal, emit_wake_up_signal,
  on_halt,
}

module _ {G R : Type 0} where
  -- Notes a call of rclcpp, of the base class or of the derived class.
  abbrev pub note : Call G → Program (State G R) (Unit {0})
  note c = modify λ s. record s { calls = c ∷ s.calls }

  abbrev pub update : (RosActionNode R → RosActionNode R) → Program (State G R) (Unit {0})
  update f = modify λ s. record s { node = f (s.node) }

module _ {G F R : Type 0} (h : Hooks G F R) where
  -- `goal_options.feedback_callback`
  unfoldable pub on_feedback_message : F → Program (State G R) (Unit {0})
  on_feedback_message f = do
    wanted ← lift (h.on_feedback f)
    update λ n. record n { on_feedback_state_change = wanted }
    when (is_idle wanted) (throw (std_logic_error "onFeedback must not return IDLE"))
    note emit_wake_up_signal

  -- `goal_options.result_callback`
  unfoldable pub on_result_message : WrappedResult R → Program (State G R) (Unit {0})
  on_result_message r = do
    handle ← gets λ s. s.goal_handle
    elim handle [
      | none ↦ fault null_pointer
      | some id ↦
          when (id == r.goal_id) (update (λ n. record n { result = r }) >> note emit_wake_up_signal)
    ]

  -- `goal_options.goal_response_callback` only writes to the log.
  unfoldable pub run_callback : Callback F R → Program (State G R) (Unit {0})
  unfolding on_feedback_message on_result_message
  run_callback (feedback_callback f) = on_feedback_message f
  run_callback (result_callback r) = on_result_message r
  run_callback (goal_response_callback handle) = pure tt

  -- `spin_some`: an exception of a callback leaves it.
  unfoldable pub run_callbacks : List (Callback F R) → Program (State G R) (Unit {0})
  run_callbacks [] = pure tt
  run_callbacks (c ∷ cs) = run_callback c >> run_callbacks cs

  -- `spin_until_future_complete` on a future that is valid or not.
  unfoldable pub spin_until_future_complete : Bool → Spin F R → Program (State G R) FutureReturnCode
  spin_until_future_complete false spin = fault invalid_future
  spin_until_future_complete true spin = run_callbacks spin.ran >> pure (spin.code)

module _ {G F R : Type 0} (e : Env G F R) where
  -- The end of `cancelGoal`, with the goal's handle. rclcpp reads through the handle it is given.
  unfoldable pub cancel_handle : Option ℕ → Program (State G R) (Unit {0})
  cancel_handle none = fault null_pointer
  cancel_handle (some id) = do
    note (async_get_result id)
    lift e.get_result_request
    note (async_cancel_goal id)
    lift e.cancel_request
    spin_until_future_complete e.hooks true e.spin_cancel
    spin_until_future_complete e.hooks true e.spin_result
    pure tt

  -- Without a handle, `cancelGoal` first waits for the server's answer.
  unfoldable pub await_handle : Program (State G R) (Unit {0})
  await_handle = do
    code ← spin_until_future_complete e.hooks true e.spin_accept
    when (is_complete code) (do
      update λ n. record n { goal_handle = e.accept_reply; future_goal_handle = false }
      cancel_handle e.accept_reply)

  unfoldable pub cancel_by_handle : Option ℕ → Bool → Program (State G R) (Unit {0})
  cancel_by_handle (some id) pending = cancel_handle (some id)
  cancel_by_handle none true = await_handle
  cancel_by_handle none false = pure tt

  cancel_with_client : Option ℕ → Program (State G R) (Unit {0})
  cancel_with_client none s = fault null_pointer s
  cancel_with_client (some client) s = cancel_by_handle s.goal_handle s.future_goal_handle s

  unfoldable pub cancel_goal : Program (State G R) (Unit {0})
  unfolding cancel_with_client cancel_by_handle
  cancel_goal s = cancel_with_client s.client_instance s

  unfoldable pub halt : Program (State G R) (Unit {0})
  halt = do
    is_on ← gets λ s. is_running s.status
    when is_on (do cancel_goal; note on_halt; lift e.on_halt_hook)
