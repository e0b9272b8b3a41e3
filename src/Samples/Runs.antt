-- ===== src/Samples/Runs.antt =====
-- Inline runs of the diamond.
use sub0pipeline.Run.Results.{run_jobs-called}
use sub0pipeline.Prelude.{
  zero, suc, [], ◌⊎◌, not, ◌&&◌, ℕ, ◌<◌, ◌≡◌, refl, true, false, some, arith, if◌then◌else◌, ◌==◌,
}
use sub0pipeline.Types.{value, unexpected, PipelineError, JobStatus, status_of}
use sub0pipeline.Invoke.{JobEnv}
use sub0pipeline.Graph.{Node, new_node, plain_flags}
use sub0pipeline.Invoke.{invoke, is_timed}
use sub0pipeline.Invoke.Outcomes.{OwnError, invoke-leaves}
use sub0pipeline.Run.{run_jobs, run_result}
use sub0pipeline.Run.Log.{IsOrdered, tolerated}
use sub0pipeline.Run.Completion.{
  NoOnDemand, Finished, run_jobs-finishes, run_jobs-IsOrdered, run_jobs-result,
}
use sub0pipeline.Samples.Graphs.{diamond, diamond-WellFormed, validate-diamond}

-- Job `bad` answers kJobFailed, and every other job succeeds.
abbrev pub failing : ℕ → ℕ → JobEnv
failing bad i = record {
  stopped_at_entry = false;
  body = if i == bad then unexpected PipelineError.job_failed else value tt;
  service = false;
  armed = false;
  stopped_after_arm = false;
  finished = true;
  expired = false;
}

-- The optional job 2 fails: the run goes on.
optional_failure :
    (run_result (run_jobs diamond.0 (failing 2)) ≡ value tt)
    × ((run_jobs diamond.0 (failing 2)).status 2 ≡ JobStatus.failed)
    × ((run_jobs diamond.0 (failing 2)).status 3 ≡ JobStatus.done)
unfolding run_jobs run_result diamond
optional_failure = (refl, refl, refl)

-- The required job 1 fails: job 2, ready but not yet called, and job 3 are skipped.
required_failure :
    (run_result (run_jobs diamond.0 (failing 1)) ≡ unexpected PipelineError.job_failed)
    × ((run_jobs diamond.0 (failing 1)).status 2 ≡ JobStatus.skipped)
    × ((run_jobs diamond.0 (failing 1)).status 3 ≡ JobStatus.skipped)
    × ((run_jobs diamond.0 (failing 1)).completed_count ≡ 4)
unfolding run_jobs run_result diamond
required_failure = (refl, refl, refl, refl)

pub diamond-NoOnDemand : NoOnDemand diamond.0
unfolding diamond
diamond-NoOnDemand i l = ground arith

run_jobs-finishes_example :
    ((i : ℕ) → i < diamond.0.size → Finished (run_jobs diamond.0 (failing 1)) i)
    × ((run_jobs diamond.0 (failing 1)).completed_count ≡ diamond.0.size)
run_jobs-finishes_example =
    run_jobs-finishes diamond.0 (failing 1) diamond-WellFormed validate-diamond diamond-NoOnDemand

run_jobs-IsOrdered_example : IsOrdered diamond.0 (run_jobs diamond.0 (failing 1)).events
run_jobs-IsOrdered_example = run_jobs-IsOrdered diamond.0 (failing 1) diamond-WellFormed

run_jobs-result_example :
    (run_result (run_jobs diamond.0 (failing 1)) ≡ value tt
      → (i : ℕ) → i < diamond.0.size
      → tolerated (diamond.0.node i).optional ((run_jobs diamond.0 (failing 1)).status i) ≡ true)
    × ((e : PipelineError)
        → run_result (run_jobs diamond.0 (failing 1)) ≡ unexpected e
        → (i : ℕ) × (i < diamond.0.size)
          × ((run_jobs diamond.0 (failing 1)).fatal ≡ some (e, i))
          × ((run_jobs diamond.0 (failing 1)).status i ≡ status_of (unexpected e))
          × (tolerated (diamond.0.node i).optional ((run_jobs diamond.0 (failing 1)).status i)
              ≡ false))
run_jobs-result_example =
    run_jobs-result diamond.0 (failing 1) diamond-WellFormed validate-diamond diamond-NoOnDemand

-- The environment of a plain job that overruns its deadline.
abbrev late : JobEnv
late = record {
  stopped_at_entry = false;
  body = value tt;
  service = true;
  armed = true;
  stopped_after_arm = false;
  finished = false;
  expired = true;
}

abbrev timed : Node
timed = record (new_node plain_flags []) { timeout = some 5 }

invoke-leaves_example :
    ((invoke timed late).released ≡ (invoke timed late).registered)
    × ((invoke timed late).retained ≡ (
        (invoke timed late).called
        && (is_timed timed.timeout && (not timed.cancellable && not late.finished))))
    × (((invoke timed late).called ≡ false) ⊎ ((invoke timed late).retained ≡ true)
        → OwnError (invoke timed late).result)
    × (late.stopped_at_entry ≡ true
        → ((invoke timed late).called ≡ false)
          × ((invoke timed late).result ≡ unexpected PipelineError.cancelled))
invoke-leaves_example = invoke-leaves timed late

-- Jobs that succeed, but for the optional job 2.
optional_fails :
    (i : ℕ)
    → i < diamond.0.size
    → tolerated
        (diamond.0.node i).optional
        (status_of (invoke (diamond.0.node i) (failing 2 i)).result)
      ≡ true
unfolding diamond invoke status_of
optional_fails zero l = refl
optional_fails (suc zero) l = refl
optional_fails (suc (suc zero)) l = refl
optional_fails (suc (suc (suc zero))) l = refl
optional_fails (suc (suc (suc (suc i)))) l = absurd (omega (arith, l))

run_jobs-called_example :
    (run_result (run_jobs diamond.0 (failing 2)) ≡ value tt)
    × ((i : ℕ)
        → i < diamond.0.size
        → (run_jobs diamond.0 (failing 2)).status i
          ≡ status_of (invoke (diamond.0.node i) (failing 2 i)).result)
run_jobs-called_example =
    run_jobs-called diamond.0 (failing 2) diamond-WellFormed validate-diamond diamond-NoOnDemand
      optional_fails
