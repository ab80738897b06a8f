-- ===== src/ActionNode/Runs/Safety.antt =====
-- What holds of a RosActionNode at every moment of its life.
use behavior_tree_ros.ActionNode.Runs.{
  ticks, halts, resets, overhears, others, here, next, IsSound, can_tick, Reach, IsReady,
  set_status, Step,
}
use behavior_tree_ros.ActionNode.Cancel.Handles.{run_callbacks-Keeps}
use behavior_tree_ros.Ros.{
  Api, NodeStatus, IsDocumented, idle, running, is_running, success, failure, skipped,
}
use behavior_tree_ros.ActionNode.{Env, State, Hooks, Callback}
use behavior_tree_ros.ActionNode.Tick.{
  refresh_client, send_goal, tick_connected, checked, dispatch, check_status, start, tick,
}
use behavior_tree_ros.Prelude.{
  Option, String, ◌≡◌, arith, is_some, true, ◌⊎◌, Option-cases, get_or, inl, inr, false, some, none,
  refl, List,
}
use behavior_tree_ros.ActionNode.Client.{create_client, construct, use_port, members}
use behavior_tree_ros.RosNodeParams.{RosNodeParams}
use behavior_tree_ros.Program.{done}
use behavior_tree_ros.ActionNode.Tick.Live.{IsLive, tick-IsLive}
use behavior_tree_ros.ActionNode.Cancel.{run_callbacks}

pub is_running-cases : (v : NodeStatus) → (v ≡ running) ⊎ (is_running v ≡ false)
is_running-cases running = inl refl
is_running-cases success = inr refl
is_running-cases failure = inr refl
is_running-cases idle = inr refl
is_running-cases skipped = inr refl

module _ {G F R : Type 0} (api : Api) (e : Env G F R) where
  pub create_client-status :
      (name : String) (s : State G R)
      → let t = (create_client e name s).1 in
        (t.status ≡ s.status) × (t.server_timeout ≡ s.server_timeout)
  unfolding create_client
  create_client-status name s = elim (Option-cases e.ros_node) [
    | inl gone ↦ ground arith
    | inr (full, alive) ↦ ground arith
  ]

  pub refresh_client-status :
      (s : State G R)
      → let t = (refresh_client api e s).1 in
        (t.status ≡ s.status) × (t.server_timeout ≡ s.server_timeout)
  unfolding refresh_client
  refresh_client-status s = ground (arith, create_client-status (get_or e.action_name_input "") s)

  start-IsLive :
      (s t : State G R)
      → IsDocumented api
      → IsSound e
      → is_some s.client_instance ≡ true
      → start api e s ≡ (done running, t)
      → IsLive t
  unfolding start send_goal checked check_status
  start-IsLive s t d sound has_client h = ground (arith, d.completed running)

  tick_idle-IsLive :
      (s t : State G R)
      → IsDocumented api
      → IsSound e
      → s.status ≡ idle
      → tick api e s ≡ (done running, t)
      → IsLive t
  unfolding tick tick_connected dispatch
  tick_idle-IsLive s t d sound first h =
      let c = (refresh_client api e s).1 in
      ground (arith, refresh_client-status s, start-IsLive c t d sound)

  tick-IsReady :
      (v : NodeStatus) (s t : State G R)
      → IsDocumented api
      → IsSound e
      → can_tick s.status ≡ true
      → IsReady s
      → tick api e s ≡ (done v, t)
      → v ≡ running
      → IsLive t
  tick-IsReady v s t d sound can ready h on =
      let h' : tick api e s ≡ (done running, t) = ground arith in
      elim (is_running-cases s.status) [
        | inl p ↦ tick-IsLive api e d s t (inr (ready p)) sound h'
        | inr p ↦ tick_idle-IsLive s t d sound (ground arith) h'
      ]

  pub construct_lem :
      (port : Option String) (p : RosNodeParams) (s : State G R)
      → (construct api e port p s).1.status ≡ idle
  unfolding construct use_port
  construct_lem none p s =
      let s1 : State G R = record s { node = members p } in
      ground (arith, create_client-status p.default_port_value s1)
  construct_lem (some port) p s =
      let s1 : State G R = record s { node = members p } in
      let s2 : State G R = record s1 {
        node = record (s1.node) { action_name_should_be_checked = true };
      } in
      ground (
        arith,
        create_client-status port s1,
        create_client-status p.default_port_value s1,
        create_client-status p.default_port_value s2,
        create_client-status p.default_port_value (create_client e port s1).1,
      )

module _ {G R : Type 0} where
  set_status-IsReady :
      (v : NodeStatus) (t : State G R) → (v ≡ running → IsLive t) → IsReady (set_status v t)
  set_status-IsReady v t live on = ground (arith, live on)

module _ {G F R : Type 0} (api : Api) where
  overheard-IsReady :
      (h : Hooks G F R) (cs : List (Callback F R)) (s t : State G R)
      → (run_callbacks h cs s).1 ≡ t
      → IsReady s
      → IsReady t
  overheard-IsReady h cs s t ran ready on =
      let k = run_callbacks-Keeps h cs s in
      let was_on : s.status ≡ running = ground (arith, k, ran, on) in
      ground (arith, k, ran, ready was_on)

  pub Step-IsReady : {s t : State G R} → IsDocumented api → Step F api s t → IsReady s → IsReady t
  Step-IsReady {s} d (ticks e v t sound can h) ready =
      set_status-IsReady v t (tick-IsReady api e v s t d sound can ready h)
  Step-IsReady d (halts e t h) ready = λ on. ground arith
  Step-IsReady d (resets h) ready = λ on. ground arith
  Step-IsReady {s} d (overhears h cs t ran) ready =
      overheard-IsReady h cs s t (ground (arith, ran)) ready
  Step-IsReady {s} d (others r) ready = λ on. ground (arith, ready on)

  pub Reach-keeps : {s t : State G R} → IsDocumented api → Reach F api s t → IsReady s → IsReady t
  Reach-keeps d here ready = ready
  Reach-keeps d (next r st) ready = Step-IsReady d st (Reach-keeps d r ready)

  -- With the documented `isStatusCompleted`: a node that was constructed, and was then ticked,
  -- halted and reset in any order by derived classes and servers that answer in any way, while
  -- other nodes spin its executor and change the registry, is live whenever it is RUNNING: it has a
  -- client, a valid future until the goal is answered and a handle from then on. `onFailure` must
  -- not answer RUNNING to SERVER_UNREACHABLE, which `tick` does not check.
  pub Reach-IsReady :
      (e : Env G F R) (port : Option String) (p : RosNodeParams) (s t u : State G R)
      → IsDocumented api
      → construct api e port p s ≡ (done tt, t)
      → Reach F api t u
      → IsReady u
  Reach-IsReady e port p s t u d made r =
      Reach-keeps d r (λ on. ground (arith, construct_lem api e port p s))
