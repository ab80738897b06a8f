-- ===== src/TreeExecutionServer/Threads.antt =====
-- tree_execution_server.cpp: `handle_accepted`, which runs `execute` in a thread of its own, and the
-- destructor. A goal is a number. `started` and `ended` list the runs of `execute`, the latest
-- first: the thread ends a run, and the executor's calls of `handle_accepted` start one.

use mathlib.Core.Option
use behavior_tree_ros.Prelude.{
  ℕ, false, none, ◌∷◌, if◌then◌else◌, ◌≡◌, true, some, refl, List, Bool, Option, [], arith, ◌≢◌,
}
use behavior_tree_ros.Program.{Outcome, faults, joinable_thread, done}

-- `std::thread action_thread`: a thread that has ended stays joinable until it is joined.
pub data Thread : Type 0 where
  no_thread : Thread
  executing exited : ℕ → Thread

-- A goal whose `handle_accepted` waits for the run before has not been started.
pub record Workers : Type 0 where
  pub action_thread : Thread
  pub started : List ℕ
  pub ended : List ℕ

abbrev pub joinable : Thread → Bool
joinable no_thread = false
joinable (executing g) = true
joinable (exited g) = true

-- `action_thread.join()`; `none` while the thread still runs, which blocks the caller.
unfoldable pub join : Thread → Option Thread
join (executing g) = none
join _ = some no_thread

-- `handle_accepted`; `none` while it waits for the earlier run.
unfoldable pub handle_accepted : ℕ → Workers → Option Workers
unfolding join
handle_accepted g w =
    Option.map (λ _. record w { action_thread = executing g; started = g ∷ w.started })
      (if joinable w.action_thread then join w.action_thread else some w.action_thread)

-- `~TreeExecutionServer() {}` destroys the thread, which calls `std::terminate` if it is joinable.
unfoldable pub destroy : Workers → Outcome (Unit {0})
destroy w = if joinable w.action_thread then faults joinable_thread else done tt

abbrev pub fresh : Workers
fresh = record { action_thread = no_thread; started = []; ended = [] }

-- The executor and the thread take steps in any order.
pub data Step (w : Workers) : Workers → Type 0 where
  accepts : {v : Workers} (g : ℕ) → handle_accepted g w ≡ some v → Step w v
  exits :
      (g : ℕ)
      → w.action_thread ≡ executing g
      → Step w (record w { action_thread = exited g; ended = g ∷ w.ended })

pub data Reach (w : Workers) : Workers → Type 0 where
  here : Reach w w
  next : {u v : Workers} → Reach w u → Step u v → Reach w v

-- All runs that were started before the one that goes on have ended.
abbrev IsSerialWith : Thread → List ℕ → List ℕ → Type 0
IsSerialWith no_thread started ended = (started ≡ []) × (ended ≡ [])
IsSerialWith (executing g) started ended = started ≡ g ∷ ended
IsSerialWith (exited g) started ended = (started ≡ ended) × (started ≢ [])

abbrev pub IsSerial : Workers → Type 0
IsSerial w = IsSerialWith w.action_thread w.started w.ended

pub Step-IsSerial : {w v : Workers} → Step w v → IsSerial w → IsSerial v
unfolding handle_accepted
Step-IsSerial (accepts g h) s = ground arith
Step-IsSerial (exits g h) s = ground arith

-- Whatever the order of goals and of ending threads, at most one run of `execute` goes on, and it
-- is the last that was started: the list of runs started is that of runs ended, with at most that
-- one in front.
Reach-IsSerial : {w : Workers} → Reach fresh w → IsSerial w
Reach-IsSerial here = (refl, refl)
Reach-IsSerial (next r s) = Step-IsSerial s (Reach-IsSerial r)

-- Once a goal has been accepted, the destructor terminates the process, also when the run has
-- ended: nothing joins the last thread.
pub destroy_terminates :
    (w : Workers) → Reach fresh w → w.started ≢ [] → destroy w ≡ faults joinable_thread
unfolding destroy
destroy_terminates w r some_goal = ground (arith, Reach-IsSerial r)
