-- ===== src/TreeExecutionServer/Life/Tests.antt =====
-- The server's start, its loop and its whole life on concrete inputs.
use behavior_tree_ros.TreeExecutionServer.Execute.{
  execute, run_tree, returned, loop, round, after_tick, end_round, finish, complete, period,
  LoopEnd,
}
use behavior_tree_ros.TreeExecutionServer.Tests.{env, params, goal, going, one_run}
use behavior_tree_ros.TreeExecutionServer.{members, Server, construct}
use behavior_tree_ros.TreeExecutionServer.Execute.Pacing.{sleeps, execute_paces, planned}
use behavior_tree_ros.TreeExecutionServer.Life.{
  Process, ServerReach, server_accounts, just_built, start, then_step, accepts_goal, executes,
}
use behavior_tree_ros.TreeExecutionServer.Execute.Ending.{ends}
use behavior_tree_ros.Prelude.{◌∷◌, ◌+◌, [], some, refl, ◌≡◌}
use behavior_tree_ros.TreeExecutionServer.Threads.{handle_accepted, fresh, exited}
use behavior_tree_ros.Program.{Outcome, done}

execute_paces_example : sleeps (execute going goal (members params)).1.events ≡ 9999995 ∷ []
unfolding period planned
execute_paces_example = execute_paces going goal (members params) refl refl refl refl refl

one_run-accepted : handle_accepted 1 fresh ≡ some one_run
unfolding handle_accepted
one_run-accepted = refl

abbrev run : Outcome LoopEnd × Server
run = execute env goal (members params)

run-returns : execute env goal (members params) ≡ (done returned, run.1)
unfolding execute run_tree loop round after_tick end_round finish complete period
run-returns = refl

abbrev after_run : Process
after_run = record {
  workers = record one_run { action_thread = exited 1; ended = 1 ∷ [] };
  server = run.1;
}

after_run-ServerReach : ServerReach (just_built params) after_run
unfolding construct
after_run-ServerReach =
    then_step (then_step start (accepts_goal 1 one_run one_run-accepted))
      (executes 1 goal env run.1 refl run-returns)

server_accounts_example : (ends run.1.events ≡ 1) × (1 ≡ 0 + ends run.1.events)
server_accounts_example = server_accounts params after_run after_run-ServerReach
