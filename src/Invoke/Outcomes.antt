-- ===== src/Invoke/Outcomes.antt =====
-- What one call of a job leaves behind, on every path.
use sub0pipeline.Prelude.{◌≡◌, ◌⊎◌, true, false, not, ◌&&◌, arith}
use sub0pipeline.Types.{Expected, unexpected, PipelineError}
use sub0pipeline.Graph.{Node}
use sub0pipeline.Invoke.{JobEnv, invoke, is_timed}

-- An error that the pipeline makes, not the body.
abbrev pub OwnError : Expected (Unit {0}) → Type 0
OwnError r =
    (r ≡ unexpected PipelineError.timeout)
    ⊎ (r ≡ unexpected PipelineError.cancelled)
    ⊎ (r ≡ unexpected PipelineError.deadline_unavailable)

-- On every path of one call the registration is released if made, the worker is retained
-- exactly if it is a timed plain job that was called and has not finished, and a body that was
-- not called or is retained answers an error of the pipeline.
pub invoke-leaves :
    (node : Node) (env : JobEnv)
    → ((invoke node env).released ≡ (invoke node env).registered)
      × ((invoke node env).retained ≡ (
          (invoke node env).called
          && (is_timed node.timeout && (not node.cancellable && not env.finished))))
      × (((invoke node env).called ≡ false) ⊎ ((invoke node env).retained ≡ true)
          → OwnError (invoke node env).result)
      × (env.stopped_at_entry ≡ true
          → ((invoke node env).called ≡ false)
            × ((invoke node env).result ≡ unexpected PipelineError.cancelled))
unfolding invoke
invoke-leaves node env =
    (ground arith, ground arith, λ h. ground (arith, h), λ h. ground (arith, h))
