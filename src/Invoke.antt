-- ===== src/Invoke.antt =====
-- Impl::invoke, invokeTimed and invokeWithDeadline of src/sub0pipeline.cpp: how one job body is
-- called. What the threads, the clock and the deadline service do in the meantime is a `JobEnv`.
pub mod Outcomes
use sub0pipeline.Prelude.{ℕ, Bool, true, false, Option, none, some, if◌then◌else◌}
use sub0pipeline.Types.{Expected, value, unexpected, PipelineError}
use sub0pipeline.Graph.{Node}

-- What one call observes.
pub record JobEnv : Type 0 where
  pub stopped_at_entry : Bool  -- stop_requested() when invoke() looks
  pub body : Expected (Unit {0})  -- what fn_ returns, if it returns in time
  pub service : Bool  -- a deadline service is injected (deadlines_)
  pub armed : Bool  -- what its arm() answers
  pub stopped_after_arm : Bool  -- stop_requested() once the deadline is armed
  pub finished : Bool  -- a plain worker has finished when the wait ends
  pub expired : Bool  -- the deadline, or the watchdog, expired before the body's result was taken

-- The result, and what the call leaves behind.
pub record Invocation : Type 0 where
  pub result : Expected (Unit {0})
  pub called : Bool  -- fn_ was called
  pub retained : Bool  -- the worker thread went to orphanThreads_
  pub registered : Bool  -- a deadline registration was made
  pub released : Bool  -- cancelAndWait() was called for it

abbrev timed_out_if : Bool → Expected (Unit {0}) → Expected (Unit {0})
timed_out_if expired other = if expired then unexpected PipelineError.timeout else other

-- invokeWithDeadline
unfoldable pub invoke_with_deadline : Node → JobEnv → Invocation
invoke_with_deadline node env =
    if env.armed
    then (if env.stopped_after_arm
        then record {
          result = timed_out_if env.expired (unexpected PipelineError.cancelled);
          called = false;
          retained = false;
          registered = true;
          released = true;
        }
        else if node.cancellable
        then record {
          result = timed_out_if env.expired env.body;
          called = true;
          retained = false;
          registered = true;
          released = true;
        }
        else record {
          result =
              timed_out_if env.expired
                (if env.finished then env.body else unexpected PipelineError.cancelled);
          called = true;
          retained = (if env.finished then false else true);
          registered = true;
          released = true;
        })
    else record {
      result = unexpected PipelineError.deadline_unavailable;
      called = false;
      retained = false;
      registered = false;
      released = false;
    }

-- invokeTimed without a service: a watchdog for a cooperative body, a hard cutoff for a plain one.
unfoldable pub invoke_timed : Node → JobEnv → Invocation
unfolding invoke_with_deadline
invoke_timed node env =
    if env.service
    then invoke_with_deadline node env
    else if node.cancellable
    then record {
      result = timed_out_if env.expired env.body;
      called = true;
      retained = false;
      registered = false;
      released = false;
    }
    else record {
      result = (if env.finished then env.body else unexpected PipelineError.timeout);
      called = true;
      retained = (if env.finished then false else true);
      registered = false;
      released = false;
    }

abbrev pub is_timed : Option ℕ → Bool
is_timed none = false
is_timed (some t) = true

-- invoke
unfoldable pub invoke : Node → JobEnv → Invocation
unfolding invoke_timed
invoke node env =
    if env.stopped_at_entry
    then record {
      result = unexpected PipelineError.cancelled;
      called = false;
      retained = false;
      registered = false;
      released = false;
    }
    else if is_timed node.timeout
    then invoke_timed node env
    else record {
      result = env.body;
      called = true;
      retained = false;
      registered = false;
      released = false;
    }
