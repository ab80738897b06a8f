-- ===== src/ActionNode/Cancel/Handles.antt =====
-- What the executor's callbacks leave alone, and which goals `cancelGoal` and `halt` cancel.
use behavior_tree_ros.Prelude.{
  ℕ, Bool, true, false, Option, none, some, List, [], ◌∷◌, ◌≡◌, ◌≢◌, arith, is_some,
}
use behavior_tree_ros.Program.{done, faults, null_pointer}
use behavior_tree_ros.Ros.{running, completed, FutureReturnCode}
use behavior_tree_ros.ActionNode.{
  State, Env, Hooks, Call, Callback, Spin, feedback_callback, result_callback,
  goal_response_callback, async_get_result, async_cancel_goal, async_send_goal,
}
use behavior_tree_ros.ActionNode.Cancel.{
  on_feedback_message, on_result_message, run_callback, run_callbacks, spin_until_future_complete,
  cancel_handle, await_handle, cancel_goal, halt,
}

-- The goals sent, and the goals that the server was asked to cancel, the latest first.
module _ {G : Type 0} where
  abbrev pub sent : List (Call G) → List G
  sent [] = []
  sent (async_send_goal g ∷ cs) = g ∷ sent cs
  sent (_ ∷ cs) = sent cs

  abbrev pub cancelled : List (Call G) → List ℕ
  cancelled [] = []
  cancelled (async_cancel_goal id ∷ cs) = id ∷ cancelled cs
  cancelled (_ ∷ cs) = cancelled cs

module _ {G R : Type 0} where
  -- What no callback changes.
  pub record Keeps (s t : State G R) : Type 0 where
    pub same_status : t.status ≡ s.status
    pub same_client : t.client_instance ≡ s.client_instance
    pub same_handle : t.goal_handle ≡ s.goal_handle
    pub same_future : t.future_goal_handle ≡ s.future_goal_handle
    pub same_received : t.goal_received ≡ s.goal_received
    pub same_time : t.time_goal_sent ≡ s.time_goal_sent
    pub same_timeout : t.server_timeout ≡ s.server_timeout
    pub same_sent : sent t.calls ≡ sent s.calls
    pub same_cancelled : cancelled t.calls ≡ cancelled s.calls

  Keeps-refl : (s : State G R) → Keeps s s
  Keeps-refl s = ground arith

  Keeps-trans : (s t u : State G R) → Keeps s t → Keeps t u → Keeps s u
  Keeps-trans s t u p q = ground arith

module _ {G F R : Type 0} (h : Hooks G F R) where
  pub run_callback-Keeps : (c : Callback F R) (s : State G R) → Keeps s (run_callback h c s).1
  unfolding run_callback on_feedback_message on_result_message
  run_callback-Keeps (feedback_callback f) s = ground arith
  run_callback-Keeps (result_callback r) s = ground arith
  run_callback-Keeps (goal_response_callback id) s = Keeps-refl s

  pub run_callbacks-Keeps :
      (cs : List (Callback F R)) (s : State G R) → Keeps s (run_callbacks h cs s).1
  unfolding run_callbacks
  run_callbacks-Keeps [] s = Keeps-refl s
  run_callbacks-Keeps (c ∷ cs) s =
      ground (arith, run_callback-Keeps c s, run_callbacks-Keeps cs (run_callback h c s).1)

  pub spin-Keeps :
      (valid : Bool) (spin : Spin F R) (s : State G R)
      → Keeps s (spin_until_future_complete h valid spin s).1
  unfolding spin_until_future_complete
  spin-Keeps false spin s = Keeps-refl s
  spin-Keeps true spin s = ground (arith, run_callbacks-Keeps spin.ran s)

module _ {G F R : Type 0} (e : Env G F R) where
  -- After the two requests nothing but callbacks runs.
  pub record Cancels (id : ℕ) (s t : State G R) : Type 0 where
    pub one_cancelled : cancelled t.calls ≡ id ∷ cancelled s.calls
    pub none_sent : sent t.calls ≡ sent s.calls
    pub kept_handle : t.goal_handle ≡ s.goal_handle
    pub kept_future : t.future_goal_handle ≡ s.future_goal_handle
    pub kept_status : t.status ≡ s.status
    pub kept_client : t.client_instance ≡ s.client_instance
    pub kept_received : t.goal_received ≡ s.goal_received

  Cancels-Keeps : (id : ℕ) (s t u : State G R) → Cancels id s t → Keeps t u → Cancels id s u
  Cancels-Keeps id s t u p q = ground arith

  cancel_handle-Cancels :
      (id : ℕ) (s : State G R)
      → e.get_result_request ≡ done tt
      → Cancels id s (cancel_handle e (some id) s).1
  unfolding cancel_handle
  cancel_handle-Cancels id s asked = ground (
    arith,
    spin-Keeps e.hooks true e.spin_cancel
        (record s { calls = async_cancel_goal id ∷ async_get_result id ∷ s.calls }),
    spin-Keeps e.hooks true e.spin_result
        (spin_until_future_complete e.hooks true e.spin_cancel
          (record s { calls = async_cancel_goal id ∷ async_get_result id ∷ s.calls })).1,
  )

  cancel_handle-done :
      (id : ℕ) (s : State G R) (t : State G R)
      → cancel_handle e (some id) s ≡ (done tt, t)
      → e.get_result_request ≡ done tt
  unfolding cancel_handle
  cancel_handle-done id s t h = ground arith

  -- `halt` on a running node that has a client and the handle of its goal, where the request for
  -- the result can be made: one request to cancel that goal, no new goal, and the handle, the
  -- future, the client and the status stay.
  pub halt-Cancels :
      (id client : ℕ) (s : State G R)
      → s.status ≡ running
      → s.client_instance ≡ some client
      → s.goal_handle ≡ some id
      → e.get_result_request ≡ done tt
      → Cancels id s (halt e s).1
  unfolding halt cancel_goal
  halt-Cancels id client s on has_client accepted asked =
      ground (arith, cancel_handle-Cancels id s asked)

  pub cancel_goal-Cancels :
      (id client : ℕ) (s t : State G R)
      → s.client_instance ≡ some client
      → s.goal_handle ≡ some id
      → cancel_goal e s ≡ (done tt, t)
      → Cancels id s t
  unfolding cancel_goal
  cancel_goal-Cancels id client s t has_client accepted stopped =
      ground (arith, cancel_handle-Cancels id s, cancel_handle-done id s t)

  -- `halt` on a running node with a client, before the server's answer: where spinning on the
  -- future brings the handle of a goal, and the request for the result can be made, that goal is
  -- cancelled, its handle is kept and the future is reset.
  pub halt_awaits_reply :
      (id client : ℕ) (s t : State G R)
      → s.status ≡ running
      → s.client_instance ≡ some client
      → s.goal_handle ≡ none
      → s.future_goal_handle ≡ true
      → spin_until_future_complete e.hooks true e.spin_accept s ≡ (done completed, t)
      → e.accept_reply ≡ some id
      → e.get_result_request ≡ done tt
      → (cancelled (halt e s).1.calls ≡ id ∷ cancelled s.calls)
        × ((halt e s).1.goal_handle ≡ some id)
        × ((halt e s).1.future_goal_handle ≡ false)
  unfolding halt cancel_goal await_handle
  halt_awaits_reply id client s t on has_client waits pending reply accepted asked = ground (
    arith,
    spin-Keeps e.hooks true e.spin_accept s,
    cancel_handle-Cancels id
        (record t { node = record (t.node) { goal_handle = some id; future_goal_handle = false } })
        asked,
  )

  -- `halt` on a running node with a client, before the server's answer: where spinning on the
  -- future ends without one, nothing is cancelled, the request stays open, and `halt` ends as
  -- `onHalt` does.
  halt_gives_up :
      (client : ℕ) (code : FutureReturnCode) (s t : State G R)
      → s.status ≡ running
      → s.client_instance ≡ some client
      → s.goal_handle ≡ none
      → s.future_goal_handle ≡ true
      → spin_until_future_complete e.hooks true e.spin_accept s ≡ (done code, t)
      → code ≢ completed
      → (cancelled (halt e s).1.calls ≡ cancelled s.calls)
        × ((halt e s).1.future_goal_handle ≡ true)
        × ((halt e s).0 ≡ e.on_halt_hook)
  unfolding halt cancel_goal await_handle
  halt_gives_up client code s t on has_client waits pending reply late =
      ground (arith, spin-Keeps e.hooks true e.spin_accept s)

  -- `halt` on a running node with a client, before the server's answer: where spinning on the
  -- future brings a rejection, `halt` reads through a null handle.
  halt_rejected_faults :
      (client : ℕ) (s t : State G R)
      → s.status ≡ running
      → s.client_instance ≡ some client
      → s.goal_handle ≡ none
      → s.future_goal_handle ≡ true
      → spin_until_future_complete e.hooks true e.spin_accept s ≡ (done completed, t)
      → e.accept_reply ≡ none
      → (halt e s).0 ≡ faults null_pointer
  unfolding halt cancel_goal await_handle cancel_handle
  halt_rejected_faults client s t on has_client waits pending reply rejected = ground arith

module _ {G R : Type 0} where
  -- What cancelling a goal leaves alone.
  pub record Steady (s t : State G R) : Type 0 where
    pub steady_status : t.status ≡ s.status
    pub steady_client : t.client_instance ≡ s.client_instance
    pub steady_received : t.goal_received ≡ s.goal_received
    pub steady_sent : sent t.calls ≡ sent s.calls
    pub steady_handle : is_some s.goal_handle ≡ true → t.goal_handle ≡ s.goal_handle
    pub steady_future : is_some s.goal_handle ≡ true → t.future_goal_handle ≡ s.future_goal_handle

module _ {G F R : Type 0} (e : Env G F R) where
  cancel_handle-Keeps : (o : Option ℕ) (s : State G R) → Steady s (cancel_handle e o s).1
  unfolding cancel_handle
  cancel_handle-Keeps none s = ground arith
  cancel_handle-Keeps (some id) s = ground (
    arith,
    spin-Keeps e.hooks true e.spin_cancel
        (record s { calls = async_cancel_goal id ∷ async_get_result id ∷ s.calls }),
    spin-Keeps e.hooks true e.spin_result
        (spin_until_future_complete e.hooks true e.spin_cancel
          (record s { calls = async_cancel_goal id ∷ async_get_result id ∷ s.calls })).1,
  )

  pub cancel_goal-Steady : (s : State G R) → Steady s (cancel_goal e s).1
  unfolding cancel_goal await_handle
  cancel_goal-Steady s = ground (
    arith,
    spin-Keeps e.hooks true e.spin_accept s,
    cancel_handle-Keeps s.goal_handle s,
    cancel_handle-Keeps e.accept_reply (
        let t = (spin_until_future_complete e.hooks true e.spin_accept s).1 in
        record t {
          node = record (t.node) { goal_handle = e.accept_reply; future_goal_handle = false };
        }),
  )
