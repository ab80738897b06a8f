-- ===== src/Samples/Programs/Robots.antt =====
-- SetRobotBool with the services there: each tick is one of SetBool, after the node has its client for
-- the robot.
use behavior_tree_ros.Samples.Programs.Clients.{
  IsClient, HasAsked, Keeps, IsServed, first_tick-HasAsked, next_tick_succeeds, use_robot-IsClient,
}
use mathlib.Core.List.{head?}
use behavior_tree_ros.ServiceNode.{Env, State}
use behavior_tree_ros.ServiceNode.Tick.{tick}
use behavior_tree_ros.Prelude.{String, ◌≡◌, true, false, some, ◌≢◌, ◌<>◌, ◌∙◌, ap, subst, sym, Bool}
use behavior_tree_ros.Ros.{running, Api, IsDocumented, idle, success}
use behavior_tree_ros.Program.{done, Program, ◌>>◌}
use behavior_tree_ros.Samples.SetBool.{set_bool_env, use_robot, tick_robot}

then_done :
    {S A : Type 0} (m : Program S (Unit {0})) (k : Program S A) (s : S)
    → (m s).0 ≡ done tt
    → (m >> k) s ≡ k (m s).1
then_done m k s returned = rw returned

module _ (api : Api) (d : IsDocumented api) (e : Env Bool Bool) (full : String)
    (served : IsServed e full) (suffix robot : String) (some_robot : robot ≢ "")
    (named : robot <> "/" <> suffix ≢ "")
    (real : robot <> "/" <> suffix ≢ "__default__placeholder__") where
  abbrev name : String
  name = robot <> "/" <> suffix

  set_bool_env-IsServed : IsServed (set_bool_env (some true) e) full
  set_bool_env-IsServed = record {
    ok = served.ok;
    node = served.node;
    made = served.made;
    ready = served.ready;
    spun = served.spun;
    complete = served.complete;
  }

  pub robot_first_tick-HasAsked :
      (s : State Bool Bool)
      → s.status ≡ idle
      → s.service_name_should_be_checked ≡ false
      → let (o, t) = tick_robot api e suffix (some robot) (some true) s in
        (o ≡ done running) × HasAsked name t
  unfolding tick_robot
  robot_first_tick-HasAsked s first fixed =
      let e' = set_bool_env (some true) e in
      let (used, client, keeps) =
        use_robot-IsClient api d e full served e' suffix robot s set_bool_env-IsServed some_robot
          named real fixed in
      let t = (use_robot e' suffix (some robot) s).1 in
      let asks = first_tick-HasAsked api d e full served name t client (keeps.status ∙ first) in
      subst (λ x. (x.0 ≡ done running) × HasAsked name x.1)
        (sym (then_done (use_robot e' suffix (some robot)) (tick api e') s used)) asks

  Keeps-HasAsked :
      (s t : State Bool Bool) → HasAsked name s → IsClient name t → Keeps s t → HasAsked name t
  Keeps-HasAsked s t has_asked client keeps = record {
    client = client;
    on = keeps.status ∙ has_asked.on;
    waits = keeps.received ∙ has_asked.waits;
    in_flight = keeps.future ∙ has_asked.in_flight;
    asked = ap head? keeps.requested ∙ has_asked.asked;
  }

  pub robot_next_tick_succeeds :
      (s : State Bool Bool)
      → HasAsked name s
      → e.response_reply ≡ some true
      → (tick_robot api e suffix (some robot) (some true) s).0 ≡ done success
  unfolding tick_robot
  robot_next_tick_succeeds s has_asked replied =
      let e' = set_bool_env (some true) e in
      let (used, client, keeps) =
        use_robot-IsClient api d e full served e' suffix robot s set_bool_env-IsServed some_robot
          named real has_asked.client.fixed in
      let t = (use_robot e' suffix (some robot) s).1 in
      let succeeds =
        next_tick_succeeds api d e full served name t (Keeps-HasAsked s t has_asked client keeps)
          replied in
      subst (λ x. x.0 ≡ done success)
        (sym (then_done (use_robot e' suffix (some robot)) (tick api e') s used)) succeeds
