-- ===== src/TreeExecutionServer/Startup.antt =====
-- What the first timer call does.
use behavior_tree_ros.Prelude.{List, ℕ, ◌∷◌, ◌≡◌, ◌||◌, suc, if◌then◌else◌, true, arith, []}
use behavior_tree_ros.TreeExecutionServer.{
  execute_registration, Event, Registration, Server, cancelled_timer, on_timer,
}
use behavior_tree_ros.Program.{is_done}

abbrev pub timers_cancelled : List Event → ℕ
timers_cancelled [] = 0
timers_cancelled (cancelled_timer ∷ vs) = suc (timers_cancelled vs)
timers_cancelled (_ ∷ vs) = timers_cancelled vs

-- The registration succeeds as a whole or leaves the server uninitialised.
execute_registration_lem :
    (e : Registration) (s : Server)
    → let (o, t) = execute_registration e s in
      (t.factory_initialized ≡ (if is_done o then true else s.factory_initialized))
      × (t.events ≡ s.events)
      × (t.params ≡ e.new_params)
unfolding execute_registration
execute_registration_lem e s = ground arith

-- A timer call on an uninitialised server registers nodes and trees with the parameters of that
-- moment: where the registration returns, the server is initialised and the timer is cancelled;
-- where it throws or faults, the server stays uninitialised and the timer goes on, so the next call
-- tries again. On an initialised server the call only cancels the timer.
pub on_timer_tries :
    (e : Registration) (s : Server)
    → let (o, t) = on_timer e s in
      let ok = s.factory_initialized || is_done (execute_registration e s).0 in
      (is_done o ≡ ok)
      × (t.factory_initialized ≡ ok)
      × (timers_cancelled t.events
          ≡ (if ok then suc (timers_cancelled s.events) else timers_cancelled s.events))
      × (t.params ≡ (if s.factory_initialized then s.params else e.new_params))
unfolding on_timer
on_timer_tries e s = ground (arith, execute_registration_lem e s)
