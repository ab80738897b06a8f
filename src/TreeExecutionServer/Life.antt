-- ===== src/TreeExecutionServer/Life.antt =====
-- The server as a whole: goals that are accepted, the thread that executes them, and the timer, in any
-- order. Each is one step here: what the timer's call and a running tree do to the factory at the
-- same time is not modelled. An exception that leaves `execute` ends the process, and so has no step.
mod Tests
use behavior_tree_ros.TreeExecutionServer.Threads.{
  Workers, fresh, Step-IsSerial, executing, accepts, exits, exited, IsSerial, handle_accepted,
  Thread,
}
use behavior_tree_ros.Prelude.{ℕ, ◌≡◌, some, length, arith, ◌+◌, ◌∙◌, ◌∷◌, refl}
use behavior_tree_ros.TreeExecutionServer.{
  Params, Server, Registration, members, Goal, on_timer, construct,
}
use behavior_tree_ros.TreeExecutionServer.Execute.Ending.{
  ends, execute_registration-events, execute-Ends,
}
use behavior_tree_ros.TreeExecutionServer.Execute.{ExecuteEnv, execute, returned}
use behavior_tree_ros.Program.{done}

pub record Process : Type 0 where
  pub workers : Workers
  pub server : Server

pub data ServerStep (p : Process) : Process → Type 0 where
  accepts_goal :
      (g : ℕ) (w : Workers)
      → handle_accepted g p.workers ≡ some w
      → ServerStep p (record p { workers = w })
  executes :
      (g : ℕ) (goal : Goal) (e : ExecuteEnv) (t : Server)
      → p.workers.action_thread ≡ executing g
      → execute e goal p.server ≡ (done returned, t)
      → ServerStep p (record {
        workers = record (p.workers) { action_thread = exited g; ended = g ∷ p.workers.ended };
        server = t;
      })
  fires : (r : Registration) → ServerStep p (record p { server = (on_timer r p.server).1 })

pub data ServerReach (p : Process) : Process → Type 0 where
  start : ServerReach p p
  then_step : {q r : Process} → ServerReach p q → ServerStep q r → ServerReach p r

abbrev pub just_built : Params → Process
just_built params = record { workers = fresh; server = (construct params).0 }

-- One goal was ended for each run that has exited, and the runs are one after the other.
record IsAccounted (p : Process) : Type 0 where
  serial : IsSerial p.workers
  accounted : ends p.server.events ≡ length p.workers.ended

on_timer-ends : (r : Registration) (s : Server) → ends (on_timer r s).1.events ≡ ends s.events
unfolding on_timer
on_timer-ends r s = ground (arith, execute_registration-events r s)

ServerStep-IsAccounted : {p q : Process} → ServerStep p q → IsAccounted p → IsAccounted q
unfolding handle_accepted
ServerStep-IsAccounted (accepts_goal g w h) a = record {
  serial = Step-IsSerial (accepts g h) a.serial;
  accounted = ground (arith, a.accounted);
}
ServerStep-IsAccounted {p} (executes g goal e t on h) a = record {
  serial = Step-IsSerial (exits g on) a.serial;
  accounted = ground (arith, a.accounted, execute-Ends e goal p.server);
}
ServerStep-IsAccounted {p} (fires r) a = record {
  serial = a.serial;
  accounted = on_timer-ends r p.server ∙ a.accounted;
}

ServerReach-IsAccounted : {p q : Process} → ServerReach p q → IsAccounted p → IsAccounted q
ServerReach-IsAccounted start a = a
ServerReach-IsAccounted (then_step r st) a = ServerStep-IsAccounted st (ServerReach-IsAccounted r a)

abbrev pub open_runs : Thread → ℕ
open_runs (executing g) = 1
open_runs _ = 0

-- Whatever the order of goals, returning runs and timer calls, from the constructor on: at any time
-- the goals ended are as many as the runs of `execute` that have exited, and the runs that
-- `handle_accepted` has started are as many, or one more exactly while a run goes on. A goal whose
-- `handle_accepted` still waits for the run before is not counted yet. A run that an exception
-- leaves ends the process and is not considered.
pub server_accounts :
    (params : Params) (p : Process)
    → ServerReach (just_built params) p
    → (ends p.server.events ≡ length p.workers.ended)
      × (length p.workers.started ≡ open_runs p.workers.action_thread + ends p.server.events)
unfolding construct
server_accounts params p r =
    let a = ServerReach-IsAccounted r (record { serial = (refl, refl); accounted = refl }) in
    ground (arith, a.serial, a.accounted)
