-- ===== src/TickLoop.antt =====
-- TickLoop of include/sub0pipeline/tick_loop.hpp and src/tick_loop.cpp. What a pass of the loop sees of the
-- clock and of the stop token is an observation; times are nanoseconds since the clock's epoch.
pub mod Gaps
use sub0pipeline.Prelude.{
  ℕ, zero, suc, ◌+◌, ◌-◌, ◌*◌, ◌/◌, Bool, true, false, Option, none, some, List, [], ◌∷◌, ◌++◌, leb,
  ◌==◌, if◌then◌else◌,
}

-- A TickJob's interval in milliseconds, and its entry of lastRun.
pub record Ticking : Type 0 where
  pub interval : ℕ
  pub last_run : ℕ

-- What the loop sees in one pass.
pub record Observation : Type 0 where
  pub stop_before : Bool
  pub now : ℕ
  pub reaches : ℕ → ℕ  -- the clock when the loop comes to the job with an index
  pub stop_after : Bool
  pub over : ℕ  -- the clock after the jobs

-- A call of a job's fn: the clock when it is made, and what its entry of lastRun gets.
pub record Call : Type 0 where
  pub entered : ℕ
  pub stamp : ℕ

-- TickLoop::add, with the entry of lastRun that run makes.
unfoldable pub add : ℕ → List Ticking → List Ticking
add interval ticks = ticks ++ record { interval = interval; last_run = 0 } ∷ []

-- `std::chrono::duration_cast<std::chrono::milliseconds>(now - lastRun[i])`
abbrev pub elapsed : ℕ → ℕ → ℕ
elapsed now last = (now - last) / 1000000

-- The loop over the jobs from index `i` on: the calls, each with the index of its job, and the jobs after
-- it.
unfoldable pub pass : Observation → ℕ → List Ticking → List (ℕ × Call) × List Ticking
pass o i [] = ([], [])
pass o i (t ∷ ts) =
    let rest = pass o (i + 1) ts in
    if leb t.interval (elapsed o.now t.last_run)
    then (
      (i, record { entered = o.reaches i; stamp = o.now }) ∷ rest.0,
      record t { last_run = o.now } ∷ rest.1,
    )
    else (rest.0, t ∷ rest.1)

-- run, for as many passes as there are observations.
unfoldable pub run : List Observation → List Ticking → List (ℕ × Call)
unfolding pass
run [] ts = []
run (o ∷ os) ts =
    let here = pass o 0 ts in
    let rest = run os here.1 in
    if o.stop_before then [] else if o.stop_after then here.0 else here.0 ++ rest
