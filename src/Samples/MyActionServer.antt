-- ===== src/Samples/MyActionServer.antt =====
-- `MyActionServer` of sample_bt_executor.cpp: a TreeExecutionServer with a logger for each tree and a
-- subscription that writes the battery's level into the global blackboard. A tree is a number, a
-- level is of type `V`.
use mathlib.Core.List.{head?}
use behavior_tree_ros.Ros.{NodeStatus}
use behavior_tree_ros.Program.{Program, done, modify, pure, ◌>>◌}
use behavior_tree_ros.TreeExecutionServer.{Goal, Server, Event}
use behavior_tree_ros.TreeExecutionServer.Execute.{ExecuteEnv, execute, returned}
use behavior_tree_ros.TreeExecutionServer.Execute.Report.{verdict, closing, execute_reports}
use behavior_tree_ros.Prelude.{ℕ, String, List, Option, Bool, none, some, false, ◌∷◌, [], ◌≡◌, refl}

pub record MyActionServer (V : Type 0) : Type 0 where
  -- the tree that the logger watches, where there is a logger
  pub logger_cout : Option ℕ
  -- what was written into the global blackboard, the latest first
  pub global_blackboard : List (String × V)

module _ {V : Type 0} where
  -- The callback of the subscription that the constructor makes.
  abbrev pub on_battery_level : V → Program (MyActionServer V) (Unit {0})
  on_battery_level level =
      modify λ s. record s { global_blackboard = ("battery_level", level) ∷ s.global_blackboard }

  abbrev pub on_tree_created : ℕ → Program (MyActionServer V) (Unit {0})
  on_tree_created tree = modify λ s. record s { logger_cout = some tree }

  abbrev pub on_tree_execution_completed :
      NodeStatus → Bool → Program (MyActionServer V) (Option String)
  on_tree_execution_completed status was_cancelled = do
    modify λ s. record s { logger_cout = none }
    pure none

-- The members after the constructor.
abbrev pub members : {V : Type 0} → MyActionServer V
members = record { logger_cout = none; global_blackboard = [] }

-- What the overridden functions answer to `execute`.
abbrev pub my_env : {V : Type 0} → ℕ → MyActionServer V → ExecuteEnv → ExecuteEnv
my_env tree s e = record e {
  on_tree_created = (on_tree_created tree s).0;
  on_tree_execution_completed = λ v b. (on_tree_execution_completed v b s).0;
}

-- The sample's overrides add no text: a run reports what the rounds call for, with the server's own
-- messages.
my_server_reports :
    {V : Type 0} (e : ExecuteEnv) (tree : ℕ) (my : MyActionServer V) (g : Goal) (s : Server)
    (ending : Event)
    → e.halt_tree ≡ done tt
    → e.is_old ≡ false
    → e.create_tree ≡ done tt
    → e.make_groot_publisher ≡ done tt
    → closing e (λ v b. none) (verdict e.rounds) ≡ some ending
    → let (o, t) = execute (my_env tree my e) g s in
      (o ≡ done returned) × (head? t.events ≡ some ending)
unfolding closing
my_server_reports e tree my g s ending halts fresh made shown closed =
    execute_reports (my_env tree my e) (λ v b. none) (record { halts = halts; tells = λ v b. refl })
      g s ending fresh made refl shown closed
