-- ===== src/ActionNode/Runs/Throwing/Rejected.antt =====
-- When `halt` of a RosActionNode has undefined behaviour.
use behavior_tree_ros.ActionNode.{Env, State}
use behavior_tree_ros.ActionNode.Cancel.{
  halt, cancel_goal, await_handle, cancel_handle, spin_until_future_complete,
}
use behavior_tree_ros.ActionNode.Client.{construct}
use behavior_tree_ros.ActionNode.Runs.Throwing.{Reach, halt_always_safe, Reach-HasClient}
use behavior_tree_ros.ActionNode.Runs.Callbacks.{IsBenign, InOrder, spin-safe}
use behavior_tree_ros.ActionNode.Runs.Safety.{is_running-cases, construct_lem}
use behavior_tree_ros.Ros.{Api, is_running, is_complete, idle}
use behavior_tree_ros.RosNodeParams.{RosNodeParams}
use behavior_tree_ros.Prelude.{
  Bool, ◌&&◌, some, none, String, not, true, is_some, Option-cases, arith, inr, inl, ap, subst, sym,
  refl,
}
use behavior_tree_ros.Prelude.{ℕ}
use behavior_tree_ros.Prelude.{◌≡◌}
use behavior_tree_ros.Prelude.{Option}
use behavior_tree_ros.Program.{done, is_fault, is_done, NeverFaults}

module _ {G F R : Type 0} (e : Env G F R) where
  -- `cancelGoal` waits for the server's answer, and that is a rejection.
  abbrev pub is_rejected : State G R → Bool
  is_rejected s =
      is_running s.status
      && not (is_some s.goal_handle)
      && s.future_goal_handle
      && is_done (spin_until_future_complete e.hooks true e.spin_accept s).0
      && is_complete e.spin_accept.code
      && not (is_some e.accept_reply)

  -- The same answers, but for the handle that the server's answer gives.
  abbrev pub accepting : ℕ → Env G F R
  accepting id = record e { accept_reply = some id }

  -- The derived class and rclcpp have no undefined behaviour, whatever the server answers.
  abbrev pub IsHarmless : Type 0
  IsHarmless = (id : ℕ) → IsBenign (accepting id)

module _ {G F R : Type 0} (e : Env G F R) where
  cancel_handle_same :
      (id : ℕ) (s : State G R)
      → cancel_handle (accepting e 0) (some id) s ≡ cancel_handle e (some id) s
  unfolding cancel_handle
  cancel_handle_same id s = refl

  held-faults :
      (id : ℕ) (s : State G R)
      → s.goal_handle ≡ some id
      → is_some s.client_instance ≡ true
      → NeverFaults (halt (accepting e 0) s).0
      → is_fault (halt e s).0 ≡ is_rejected e s
  unfolding halt cancel_goal
  held-faults id s held has_client safe = ground (arith, cancel_handle_same id s)

  -- How `cancelGoal` ends where there is no handle.
  unheld-cancel_goal :
      (s : State G R)
      → s.goal_handle ≡ none
      → e.accept_reply ≡ none
      → is_some s.client_instance ≡ true
      → NeverFaults (spin_until_future_complete e.hooks true e.spin_accept s).0
      → is_fault (cancel_goal e s).0 ≡ (
          s.future_goal_handle
          && is_done (spin_until_future_complete e.hooks true e.spin_accept s).0
          && is_complete e.spin_accept.code)
  unfolding cancel_goal await_handle cancel_handle spin_until_future_complete
  unheld-cancel_goal s unheld none_given has_client spun = ground arith

  -- The fault of a halt is one of `cancelGoal`.
  halt-cancel_goal :
      (s : State G R)
      → is_running s.status ≡ true
      → NeverFaults e.on_halt_hook
      → is_fault (halt e s).0 ≡ is_fault (cancel_goal e s).0
  unfolding halt
  halt-cancel_goal s on halted = rw on (ground (arith, halted))

  unheld-faults :
      (s : State G R)
      → s.goal_handle ≡ none
      → e.accept_reply ≡ none
      → is_running s.status ≡ true
      → is_some s.client_instance ≡ true
      → NeverFaults e.on_halt_hook
      → NeverFaults (spin_until_future_complete e.hooks true e.spin_accept s).0
      → is_fault (halt e s).0 ≡ is_rejected e s
  unheld-faults s unheld none_given on has_client halted spun =
      ground (
        arith,
        halt-cancel_goal s on halted,
        unheld-cancel_goal s unheld none_given has_client spun,
      )

  rejected-faults :
      (b : IsHarmless e) (s : State G R)
      → e.accept_reply ≡ none
      → is_running s.status ≡ true
      → is_some s.client_instance ≡ true
      → InOrder s e.spin_accept.ran
      → NeverFaults (halt (accepting e 0) s).0
      → is_fault (halt e s).0 ≡ is_rejected e s
  rejected-faults b s none_given on has_client o safe = elim (Option-cases s.goal_handle) [
    | inr (id, held) ↦ held-faults id s held has_client safe
    | inl unheld ↦
        unheld-faults s unheld none_given on has_client (b 0).halted
          (spin-safe e.hooks (b 0).fed_back e.spin_accept s o)
  ]

  -- A node that was constructed, and was then ticked while IDLE or RUNNING, halted and reset in any
  -- order, by ticks and halts that may also throw, while other nodes spin its executor and change
  -- the registry: `halt` has undefined behaviour exactly if the node is RUNNING without a handle
  -- and with a valid future, spinning on that future returns and completes it, and the server's
  -- answer is a rejection. The derived class and rclcpp have no undefined behaviour, and the
  -- results that come in while `halt` awaits the server's answer come only where a handle is held.
  pub halt_faults_exactly :
      (api : Api) (made : Env G F R) (port : Option String) (p : RosNodeParams) (s t u : State G R)
      → IsHarmless e
      → construct api made port p s ≡ (done tt, t)
      → Reach F api t u
      → InOrder u e.spin_accept.ran
      → is_fault (halt e u).0 ≡ is_rejected e u
  unfolding halt
  halt_faults_exactly api made port p s t u b built r o =
      let safe =
        λ (id : ℕ). halt_always_safe api made (accepting e id) port p s t u built r (b id) o in
      let rest : t.status ≡ idle = ground (arith, built, construct_lem api made port p s) in
      let has = Reach-HasClient api r (λ on. ground (arith, rest, on)) in
      elim (is_running-cases u.status) [
        | inr off ↦ ground (arith, off)
        | inl on ↦ elim (Option-cases e.accept_reply) [
          | inl q ↦ rejected-faults b u q (ground (arith, on)) (has on) o (safe 0)
          | inr (id, q) ↦
              let same : e ≡ accepting e id = ap (λ x. record e { accept_reply = x }) q in
              let never : NeverFaults (halt e u).0 =
                subst (λ x. NeverFaults (halt x u).0) (sym same) (safe id) in
              ground (arith, never, q)
        ]
      ]
