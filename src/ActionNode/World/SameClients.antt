-- ===== src/ActionNode/World/SameClients.antt =====
-- The member functions of a RosActionNode that leave its client alone.
use behavior_tree_ros.ActionNode.{
  Env, State, Hooks, Callback, Spin, feedback_callback, async_cancel_goal, result_callback,
  async_get_result, goal_response_callback,
}
use behavior_tree_ros.ActionNode.Cancel.{
  halt, run_callbacks, run_callback, on_feedback_message, on_result_message,
  spin_until_future_complete, cancel_handle, await_handle, cancel_goal,
}
use behavior_tree_ros.Prelude.{List, Option, Bool, none, some, ◌≡◌, true, false, [], ◌∷◌, arith, ℕ}
use behavior_tree_ros.Ros.{Api}
use behavior_tree_ros.ActionNode.Tick.{
  accept_reply, start, send_goal, answer_feedback, await_goal, dispatch, checked, answer_result,
  goal_answered, check_status, after_goal, poll, tick_connected,
}

module _ {G R : Type 0} where
  -- The client, its name and the registry are as they were.
  pub record SameClient (s t : State G R) : Type 0 where
    pub same_client : t.client_instance ≡ s.client_instance
    pub same_name : t.action_name ≡ s.action_name
    pub same_registry : t.registry ≡ s.registry

module _ {G F R : Type 0} (h : Hooks G F R) where
  run_callback-SameClient : (c : Callback F R) (s : State G R) → SameClient s (run_callback h c s).1
  unfolding run_callback on_feedback_message on_result_message
  run_callback-SameClient (feedback_callback f) s = ground arith
  run_callback-SameClient (result_callback r) s = ground arith
  run_callback-SameClient (goal_response_callback id) s = ground arith

  run_callbacks-SameClient :
      (cs : List (Callback F R)) (s : State G R) → SameClient s (run_callbacks h cs s).1
  unfolding run_callbacks
  run_callbacks-SameClient [] s = ground arith
  run_callbacks-SameClient (c ∷ cs) s =
      ground
        (arith, run_callback-SameClient c s, run_callbacks-SameClient cs (run_callback h c s).1)

  spin-SameClient :
      (valid : Bool) (spin : Spin F R) (s : State G R)
      → SameClient s (spin_until_future_complete h valid spin s).1
  unfolding spin_until_future_complete
  spin-SameClient false spin s = ground arith
  spin-SameClient true spin s = ground (arith, run_callbacks-SameClient spin.ran s)

module _ {G F R : Type 0} (e : Env G F R) where
  cancel_handle-SameClient : (o : Option ℕ) (s : State G R) → SameClient s (cancel_handle e o s).1
  unfolding cancel_handle
  cancel_handle-SameClient none s = ground arith
  cancel_handle-SameClient (some id) s =
      let s1 : State G R = record s {
        calls = async_cancel_goal id ∷ async_get_result id ∷ s.calls;
      } in
      ground (
        arith,
        spin-SameClient e.hooks true e.spin_cancel s1,
        spin-SameClient e.hooks true e.spin_result
            (spin_until_future_complete e.hooks true e.spin_cancel s1).1,
      )

  cancel_goal-SameClient : (s : State G R) → SameClient s (cancel_goal e s).1
  unfolding cancel_goal await_handle
  cancel_goal-SameClient s = ground (
    arith,
    spin-SameClient e.hooks true e.spin_accept s,
    cancel_handle-SameClient s.goal_handle s,
    cancel_handle-SameClient e.accept_reply (
        let t = (spin_until_future_complete e.hooks true e.spin_accept s).1 in
        record t {
          node = record (t.node) { goal_handle = e.accept_reply; future_goal_handle = false };
        }),
  )

  pub halt-SameClient : (s : State G R) → SameClient s (halt e s).1
  unfolding halt
  halt-SameClient s = ground (arith, cancel_goal-SameClient s)

module _ {G F R : Type 0} (api : Api) (e : Env G F R) where
  start-SameClient : (s : State G R) → SameClient s (start api e s).1
  unfolding start send_goal checked check_status
  start-SameClient s = ground arith

  after_goal-SameClient : (s : State G R) → SameClient s (after_goal api e s).1
  unfolding after_goal answer_feedback answer_result checked check_status
  after_goal-SameClient s = ground (arith, cancel_goal-SameClient e s)

  abbrev accept : State G R → State G R
  accept u = record u {
    node = record (u.node) {
      goal_received = true;
      goal_handle = e.goal_reply;
      future_goal_handle = false;
    };
  }

  poll-SameClient : (s : State G R) → SameClient s (poll api e s).1
  unfolding poll await_goal goal_answered accept_reply checked check_status
  poll-SameClient s =
      let t = (run_callbacks e.hooks e.spin_some s).1 in
      let u = (spin_until_future_complete e.hooks t.future_goal_handle e.spin_goal t).1 in
      ground (
        arith,
        run_callbacks-SameClient e.hooks e.spin_some s,
        spin-SameClient e.hooks t.future_goal_handle e.spin_goal t,
        after_goal-SameClient t,
        after_goal-SameClient (accept u),
      )

  pub tick_connected-SameClient : (s : State G R) → SameClient s (tick_connected api e s).1
  unfolding tick_connected dispatch
  tick_connected-SameClient s = ground (arith, start-SameClient s, poll-SameClient s)
