-- ===== src/ActionNode/Runs/Callbacks.antt =====
-- When the callbacks of a goal and `cancelGoal` have undefined behaviour, and when they have none.
use behavior_tree_ros.Prelude.{
  List, Bool, is_some, ℕ, true, ◌≡◌, ◌∷◌, Option, ◌⊎◌, arith, some, Option-cases, false, [], inr,
  inl, refl, none,
}
use behavior_tree_ros.ActionNode.{
  Env, Callback, WrappedResult, ActionNodeErrorCode, Spin, result_callback, feedback_callback,
  async_cancel_goal, goal_response_callback, async_get_result, State, Hooks,
}
use behavior_tree_ros.Program.{NeverFaults, faults, null_pointer, done}
use behavior_tree_ros.ActionNode.Cancel.{
  cancel_handle, run_callback, run_callbacks, spin_until_future_complete, await_handle,
  on_feedback_message, on_result_message, cancel_goal,
}
use behavior_tree_ros.ActionNode.Cancel.Handles.{Keeps, run_callback-Keeps, spin-Keeps, sent}
use behavior_tree_ros.Ros.{Api, idle, running}
use behavior_tree_ros.ActionNode.Tick.{
  tick, tick_connected, refresh_client, dispatch, start, send_goal,
}

-- No result of a goal is among the callbacks.
abbrev pub no_results : {F R : Type 0} → List (Callback F R) → Bool
no_results [] = true
no_results (result_callback r ∷ cs) = false
no_results (feedback_callback f ∷ cs) = no_results cs
no_results (goal_response_callback o ∷ cs) = no_results cs

-- The derived class and rclcpp return or throw, and the server does not reject a goal while `halt`
-- waits for its answer.
pub record IsBenign {G F R : Type 0} (e : Env G F R) : Type 0 where
  pub goal_set : NeverFaults e.set_goal
  pub result_received : (r : WrappedResult R) → NeverFaults (e.on_result_received r)
  pub fed_back : (f : F) → NeverFaults (e.on_feedback f)
  pub failed :
      (c : ActionNodeErrorCode) (r : Option (WrappedResult R)) → NeverFaults (e.on_failure c r)
  pub failed_code : (c : ActionNodeErrorCode) → NeverFaults (e.on_failure_code c)
  pub halted : NeverFaults e.on_halt_hook
  pub made : NeverFaults e.make_instance
  pub asked : NeverFaults e.get_result_request
  pub cancelled : NeverFaults e.cancel_request
  pub not_rejected : is_some e.accept_reply ≡ true

-- The results that an executor delivers belong to a goal that the node knows: it holds a handle, or
-- there are none.
abbrev pub InOrder : {G F R : Type 0} → State G R → List (Callback F R) → Type 0
InOrder s cs = (is_some s.goal_handle ≡ true) ⊎ (no_results cs ≡ true)

pub record IsOrderly {G F R : Type 0} (e : Env G F R) (s : State G R) : Type 0 where
  pub some_in_order : InOrder s e.spin_some
  pub goal_in_order : InOrder s e.spin_goal.ran
  pub accept_in_order : InOrder s e.spin_accept.ran

module _ {G F R : Type 0} (h : Hooks G F R) (sane : (f : F) → NeverFaults (h.on_feedback f)) where
  run_callback-safe :
      (c : Callback F R) (cs : List (Callback F R)) (s : State G R)
      → InOrder s (c ∷ cs)
      → NeverFaults (run_callback h c s).0
  unfolding run_callback on_feedback_message on_result_message
  run_callback-safe (feedback_callback f) cs s o = ground (arith, sane f)
  run_callback-safe (result_callback r) cs s o = ground arith
  run_callback-safe (goal_response_callback g) cs s o = refl

  InOrder-rest :
      (c : Callback F R) (cs : List (Callback F R)) (s t : State G R)
      → Keeps s t
      → InOrder s (c ∷ cs)
      → InOrder t cs
  InOrder-rest (feedback_callback f) cs s t k o = ground arith
  InOrder-rest (result_callback r) cs s t k o = ground arith
  InOrder-rest (goal_response_callback g) cs s t k o = ground arith

  pub run_callbacks-safe :
      (cs : List (Callback F R)) (s : State G R)
      → InOrder s cs
      → NeverFaults (run_callbacks h cs s).0
  unfolding run_callbacks
  run_callbacks-safe [] s o = refl
  run_callbacks-safe (c ∷ cs) s o =
      let t = (run_callback h c s).1 in
      let o' = InOrder-rest c cs s t (run_callback-Keeps h c s) o in
      ground (arith, run_callback-safe c cs s o, run_callbacks-safe cs t o')

  pub spin-safe :
      (spin : Spin F R) (s : State G R)
      → InOrder s spin.ran
      → NeverFaults (spin_until_future_complete h true spin s).0
  unfolding spin_until_future_complete
  spin-safe spin s o = ground (arith, run_callbacks-safe spin.ran s o)

module _ {G F R : Type 0} (e : Env G F R) (b : IsBenign e) where
  cancel_handle-safe :
      (id : ℕ) (s : State G R)
      → s.goal_handle ≡ some id
      → NeverFaults (cancel_handle e (some id) s).0
  unfolding cancel_handle
  cancel_handle-safe id s held =
      let s1 : State G R = record s {
        calls = async_cancel_goal id ∷ async_get_result id ∷ s.calls;
      } in
      let t = (spin_until_future_complete e.hooks true e.spin_cancel s1).1 in
      let k = spin-Keeps e.hooks true e.spin_cancel s1 in
      ground (
        arith,
        b.asked,
        b.cancelled,
        k,
        spin-safe e.hooks b.fed_back e.spin_cancel s1 (inl (ground arith)),
        spin-safe e.hooks b.fed_back e.spin_result t (inl (ground (arith, k))),
      )

  pub cancel_goal-safe :
      (s : State G R)
      → is_some s.client_instance ≡ true
      → InOrder s e.spin_accept.ran
      → NeverFaults (cancel_goal e s).0
  unfolding cancel_goal await_handle
  cancel_goal-safe s has_client o = elim (Option-cases s.goal_handle) [
    | inr (id, p) ↦ ground (arith, cancel_handle-safe id s p)
    | inl p ↦ elim (Option-cases e.accept_reply) [
      | inr (id, q) ↦
          let t = (spin_until_future_complete e.hooks true e.spin_accept s).1 in
          let u : State G R = record t {
            node = record (t.node) { goal_handle = some id; future_goal_handle = false };
          } in
          ground
            (arith, spin-safe e.hooks b.fed_back e.spin_accept s o, cancel_handle-safe id u refl)
      | inl q ↦ ground (arith, b.not_rejected)
    ]
  ]

module _ {G F R : Type 0} (api : Api) (e : Env G F R) (h : Hooks G F R) where
  -- An idle node with a client whose name is not looked up again, which holds no handle, is ticked,
  -- so that a goal is sent: where another node that spins the shared executor then delivers a
  -- result, before this node is ticked again, the result is compared through the null pointer
  -- `goal_handle_`.
  pub early_result_faults :
      (client : ℕ) (goal : G) (r : WrappedResult R) (cs : List (Callback F R)) (s : State G R)
      → e.rclcpp_ok ≡ true
      → s.status ≡ idle
      → s.client_instance ≡ some client
      → s.action_name_should_be_checked ≡ false
      → s.goal_handle ≡ none
      → e.set_goal ≡ done (some goal)
      → e.server_ready ≡ true
      → let (o, t) = tick api e s in
        (o ≡ done running)
        × (sent t.calls ≡ goal ∷ sent s.calls)
        × (run_callbacks h (result_callback r ∷ cs) t ≡ (faults null_pointer, t))
  unfolding tick tick_connected refresh_client dispatch start send_goal run_callbacks run_callback
      on_result_message
  early_result_faults client goal r cs s alive first has_client fixed unanswered wanted ready =
      ground arith
