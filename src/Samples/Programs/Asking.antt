-- ===== src/Samples/Programs/Asking.antt =====
-- What becomes of a SetBool and of a SetRobotBool whose service is there: RUNNING, then SUCCESS.
use behavior_tree_ros.Samples.Programs.Clients.{
  IsClient, IsServed, first_tick-HasAsked, next_tick_succeeds, answered_reply, answered-IsServed,
}
use behavior_tree_ros.Samples.Programs.Robots.{robot_first_tick-HasAsked, robot_next_tick_succeeds}
use behavior_tree_ros.Samples.Programs.{Call, set_bool_service, set_robot_bool_service}
use behavior_tree_ros.Samples.Programs.Nodes.{
  Attributes, InputPorts, ask_once, callback_of, answered, tick_node, construct_node, flag,
}
use behavior_tree_ros.ServiceNode.{Env, State, construct, use_port}
use behavior_tree_ros.ServiceNode.Tick.{tick}
use behavior_tree_ros.Prelude.{String, ◌≡◌, true, some, ◌≢◌, List, ◌<>◌, refl, Bool}
use behavior_tree_ros.Ros.{running, Api, IsDocumented, idle, success}
use behavior_tree_ros.Program.{done}
use behavior_tree_ros.Samples.SetBool.{
  set_bool_env, set_bool_ports, construct_robot, tick_robot, robot_ports,
}
use behavior_tree_ros.RosNodeParams.{RosNodeParams}

module _ (api : Api) (d : IsDocumented api) (ports : InputPorts) (made first second : Env Bool Bool)
    (full : String) (made_served : IsServed made full) (first_served : IsServed first full)
    (second_served : IsServed second full) where
  pub set_bool_succeeds :
      (server : List Call) (params : RosNodeParams) (xs : Attributes) (name : String)
      (callback : Bool → Bool) (s : State Bool Bool)
      → (let (o, t) = construct_node api ports made (set_bool_service params) xs s in
          (o ≡ done tt) × IsClient name t × (t.status ≡ idle))
      → flag api ports set_bool_ports xs ≡ some true
      → callback_of name server ≡ some callback
      → callback true ≡ true
      → (ask_once api ports made first second server (set_bool_service params) xs s).0
        ≡ done (running, success)
  unfolding ask_once tick_node
  set_bool_succeeds server params xs name callback s (constructed, client, is_first) sets found
        agrees =
      let t = (construct_node api ports made (set_bool_service params) xs s).1 in
      let (ran, has_asked) =
        first_tick-HasAsked api d first full first_served name t client is_first in
      let u = (tick api (set_bool_env (some true) first) t).1 in
      let answers =
        next_tick_succeeds api d (answered server u second) full
          (answered-IsServed server second full u second_served) name u has_asked
          (answered_reply server name callback second u has_asked found agrees) in
      rw (constructed, sets, ran, answers)

  -- A tick of SetRobotBool is one of SetBool, once it has the client for its robot.
  pub robot_succeeds :
      (server : List Call) (suffix robot : String) (xs : Attributes) (callback : Bool → Bool)
      (s : State Bool Bool)
      → ports.input_port robot_ports xs "robot" ≡ some robot
      → flag api ports robot_ports xs ≡ some true
      → robot ≢ ""
      → robot <> "/" <> suffix ≢ ""
      → robot <> "/" <> suffix ≢ "__default__placeholder__"
      → callback_of (robot <> "/" <> suffix) server ≡ some callback
      → callback true ≡ true
      → (ask_once api ports made first second server (set_robot_bool_service suffix) xs s).0
        ≡ done (running, success)
  unfolding ask_once tick_node construct_node construct_robot construct use_port
  robot_succeeds server suffix robot xs callback s names sets some_robot named real found agrees =
      let t = (construct_node api ports made (set_robot_bool_service suffix) xs s).1 in
      let (ran, has_asked) =
        robot_first_tick-HasAsked api d first full first_served suffix robot some_robot named real t
          refl refl in
      let u = (tick_robot api first suffix (some robot) (some true) t).1 in
      let answers =
        robot_next_tick_succeeds api d (answered server u second) full
          (answered-IsServed server second full u second_served) suffix robot some_robot named real
          u has_asked (answered_reply server _ callback second u has_asked found agrees) in
      rw (names, sets, ran, answers)
