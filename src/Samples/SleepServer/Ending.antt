-- ===== src/Samples/SleepServer/Ending.antt =====
-- How the sleep server's `execute` ends, and what it publishes until then.
use native.Mathlib.Numerals.{add-one}
use mathlib.Core.List.{head?}
use behavior_tree_ros.Prelude.{
  List, Bool, suc, ◌∷◌, ◌+◌, if◌then◌else◌, ◌≡◌, ◌<◌, zero, ltb, not, ◌^◌, [], ◌&&◌, false, arith,
  some, ◌≤◌, ◌*◌, length, true, refl, Bool-cases, inr, inl, ◌∙◌, ◌-◌, ℕ,
}
use behavior_tree_ros.Samples.SleepServer.{
  LoopEnd, Event, Round, increment, unfinished, published_feedback, finished, slept, returned,
  finish, goal_succeeded, goal_canceled, Env, execute, deadline_of, publish, loop,
}
use behavior_tree_ros.Program.{Outcome, done, Program}
use behavior_tree_ros.Ros.{Api}
use behavior_tree_ros.Samples.SleepAction.{Goal, set_goal}

abbrev pub feedbacks : List Event → List ℕ
feedbacks [] = []
feedbacks (published_feedback c ∷ vs) = c ∷ feedbacks vs
feedbacks (_ ∷ vs) = feedbacks vs

-- The rounds before the first that ends the loop.
unfoldable pub cycles : List Round → ℕ → ℕ
cycles [] deadline = 0
cycles (r ∷ rs) deadline =
    let rest = suc (cycles rs deadline) in
    if ltb r.time deadline && not r.is_canceling then rest else 0

-- What ends the loop: the deadline, a cancel, or nothing yet.
unfoldable pub stop : List Round → ℕ → LoopEnd
stop [] deadline = unfinished
stop (r ∷ rs) deadline =
    let rest = stop rs deadline in
    if not (ltb r.time deadline) then finished else if r.is_canceling then returned else rest

-- The numbers from `c` on, the last first, before some others.
unfoldable pub count_from : ℕ → ℕ → List ℕ → List ℕ
count_from zero c before = before
count_from (suc n) c before = count_from n (suc c) (c ∷ before)

-- The events with which a run ends, the latest first.
abbrev pub Closed : LoopEnd → Bool → List Event → Type 0
Closed finished true vs = head? vs ≡ some (goal_succeeded true)
Closed returned rclcpp_ok vs = head? vs ≡ some (goal_canceled false)
Closed _ _ vs = Unit {0}

abbrev Looped : LoopEnd → ℕ → ℕ → List Event → Outcome LoopEnd × List Event → Type 0
Looped end n c s (o, t) =
    (o ≡ done end) × (feedbacks t ≡ count_from n c (feedbacks s)) × Closed end false t

publish-lem :
    (c : ℕ) (again : ℕ → Program (List Event) LoopEnd) (s : List Event)
    → c + 1 < 2 ^ 31
    → publish c again s ≡ again (c + 1) (slept ∷ published_feedback c ∷ s)
unfolding publish increment
publish-lem c again s small = ground arith

loop-Looped :
    (rs : List Round) (d c : ℕ) (s : List Event)
    → c + cycles rs d < 2 ^ 31
    → Looped (stop rs d) (cycles rs d) c s (loop rs d c s)
unfolding loop cycles stop count_from
loop-Looped [] d c s small = ground arith
loop-Looped (r ∷ rs) d c s small = elim (Bool-cases (ltb r.time d)) [
  | inr late ↦ rw late (refl, refl, tt)
  | inl early ↦ elim (Bool-cases r.is_canceling) [
    | inl asked ↦ rw (early, asked) (refl, refl, refl)
    | inr not_asked ↦
        let small' : suc c + cycles rs d < 2 ^ 31 = ground (arith, early, not_asked) in
        let step = publish-lem c (λ k. loop rs d k) s (ground (arith, small')) in
        rw (early, not_asked)
          (ground (
            arith,
            step,
            add-one c,
            loop-Looped rs d (suc c) (slept ∷ published_feedback c ∷ s) small',
          ))
  ]
]

finish-Closed :
    (b : Bool) (end : LoopEnd) (vs : List Event)
    → Closed end false vs
    → Closed end b (finish b end vs).1
unfolding finish
finish-Closed true finished vs h = refl
finish-Closed false finished vs h = tt
finish-Closed b returned vs h = h
finish-Closed b unfinished vs h = tt

abbrev ended : LoopEnd → LoopEnd
ended finished = returned
ended returned = returned
ended unfinished = unfinished

finish_lem :
    (b : Bool) (end : LoopEnd) (vs : List Event)
    → ((finish b end vs).0 ≡ done (ended end)) × (feedbacks (finish b end vs).1 ≡ feedbacks vs)
unfolding finish
finish_lem true finished vs = (refl, refl)
finish_lem false finished vs = (refl, refl)
finish_lem b returned vs = (refl, refl)
finish_lem b unfinished vs = (refl, refl)

-- From one test of the loop to the next, a round sleeps, so the clock moves on by a millisecond at
-- least.
abbrev pub IsPaced : ℕ → List Round → Type 0
IsPaced before [] = Unit {0}
IsPaced before (r ∷ rs) = (before + 1000000 ≤ r.time) × IsPaced r.time rs

-- The first test comes at any time from the start on.
abbrev pub IsPacedFrom : ℕ → List Round → Type 0
IsPacedFrom start [] = Unit {0}
IsPacedFrom start (r ∷ rs) = (start ≤ r.time) × IsPaced r.time rs

cycles-le :
    (rs : List Round) (before deadline : ℕ)
    → IsPaced before rs
    → (0 < cycles rs deadline)
    → before + 1000000 * cycles rs deadline < deadline
unfolding cycles
cycles-le [] before deadline p h = ground arith
cycles-le (r ∷ rs) before deadline p h = ground (arith, cycles-le rs r.time deadline p.1)

cycles-le_from :
    (rs : List Round) (start deadline : ℕ)
    → IsPacedFrom start rs
    → (0 < cycles rs deadline)
    → start + 1000000 * cycles rs deadline < deadline + 1000000
unfolding cycles
cycles-le_from [] start deadline p h = ground arith
cycles-le_from (r ∷ rs) start deadline p h = ground (arith, cycles-le rs r.time deadline p.1)

stop-length :
    (rs : List Round) (deadline : ℕ)
    → stop rs deadline ≡ unfinished
    → cycles rs deadline ≡ length rs
unfolding stop cycles
stop-length [] deadline h = refl
stop-length (r ∷ rs) deadline h = ground (arith, stop-length rs deadline)

module _ (api : Api) (e : Env) (goal : Goal) where
  pub execute-feedbacks :
      (s : List Event)
      → let d = deadline_of api e.start goal in
        cycles e.rounds d < 2 ^ 31
        → let (o, t) = execute api e goal s in
          (o ≡ done (ended (stop e.rounds d)))
          × (feedbacks t ≡ count_from (cycles e.rounds d) 0 (feedbacks s))
          × Closed (stop e.rounds d) e.rclcpp_ok t
  unfolding execute
  execute-feedbacks s small =
      let d = deadline_of api e.start goal in
      let u = (loop e.rounds d 0 s).1 in
      let l = loop-Looped e.rounds d 0 s (ground (arith, small)) in
      rw l.0 (
        (finish_lem e.rclcpp_ok (stop e.rounds d) u).0,
        (finish_lem e.rclcpp_ok (stop e.rounds d) u).1 ∙ l.1,
        finish-Closed e.rclcpp_ok (stop e.rounds d) u l.2,
      )

  -- A sleep of a number of milliseconds that an `int32` can hold, whose loop is tested first at any
  -- time from the start on and then after a millisecond or more each time, and where `from_seconds`
  -- gives no more than the milliseconds, ends within one more round than it has milliseconds: the
  -- goal is canceled with `done` false, or, while rclcpp is up, succeeds with `done` true. The
  -- feedback counts the cycles from 0 on, which are at most the milliseconds, so the counter does
  -- not overflow.
  pub execute_terminates :
      (s : List Event)
      → goal.msec_timeout < 2 ^ 31
      → api.from_seconds goal.msec_timeout ≤ goal.msec_timeout * 1000000
      → IsPacedFrom e.start e.rounds
      → goal.msec_timeout < length e.rounds
      → let d = e.start + api.from_seconds goal.msec_timeout in
        let (o, t) = execute api e goal s in
        (o ≡ done returned)
        × (feedbacks t ≡ count_from (cycles e.rounds d) 0 (feedbacks s))
        × Closed (stop e.rounds d) e.rclcpp_ok t
        × (cycles e.rounds d ≤ goal.msec_timeout)
  unfolding deadline_of
  execute_terminates s small truncated paced enough =
      let d = e.start + api.from_seconds goal.msec_timeout in
      let same : deadline_of api e.start goal ≡ d = ground arith in
      let few : cycles e.rounds d ≤ goal.msec_timeout =
        ground (arith, truncated, cycles-le_from e.rounds e.start d paced) in
      let f = execute-feedbacks s (rw same (ground (arith, few))) in
      ground (arith, same, few, f, stop-length e.rounds d, enough)

-- A number of milliseconds above the range of `int32` is stored as a negative one: the server's
-- first look at the clock is past the deadline, so the goal succeeds at once, with no cycle. The
-- clock counts from long enough ago.
long_sleep_ends_at_once :
    (api : Api) (e : Env) (msec : ℕ) (goal : Goal) (r : Round) (rs : List Round) (s : List Event)
    → set_goal (done msec) ≡ done (some goal)
    → 2 ^ 31 ≤ msec
    → msec < 2 ^ 32
    → api.from_seconds (2 ^ 32 - msec) ≤ e.start
    → e.rounds ≡ r ∷ rs
    → e.start ≤ r.time
    → e.rclcpp_ok ≡ true
    → execute api e goal s ≡ (done returned, goal_succeeded true ∷ s)
unfolding execute deadline_of loop finish
long_sleep_ends_at_once api e msec goal r rs s made large fits long_ago first later up =
    let d = deadline_of api e.start goal in
    let negative : ltb goal.msec_timeout (2 ^ 31) ≡ false = ground (arith, made) in
    let early : d ≤ e.start = ground (arith, negative) in
    let late : ltb r.time d ≡ false = ground (arith, early, later) in
    rw (first, late) (ground (arith, up))
