-- ===== src/ActionNode/Runs/Machine/Tests.antt =====
-- A node that has asked for its first goal.
use behavior_tree_ros.ActionNode.Runs.Machine.{Moves, view, resting}
use behavior_tree_ros.ActionNode.Runs.Machine.Refinement.{life_refines_machine}
use behavior_tree_ros.ActionNode.Runs.Tests.{built, ticked, construct-built, one_tick}
use behavior_tree_ros.ActionNode.Runs.{set_status}
use behavior_tree_ros.ActionNode.Cancel.Handles.{sent}
use behavior_tree_ros.ActionNode.Tests.{env, params, connected}
use behavior_tree_ros.Ros.Tests.{api, api-IsDocumented}
use behavior_tree_ros.Ros.{running}
use behavior_tree_ros.Prelude.{none}

life_refines_machine_example :
    Moves
      (record { phase = resting; goals = sent built.1.calls })
      (view (set_status running ticked.1))
life_refines_machine_example =
    life_refines_machine api env none params connected built.1 (set_status running ticked.1)
      api-IsDocumented construct-built one_tick
