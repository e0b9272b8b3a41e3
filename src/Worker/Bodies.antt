-- ===== src/Worker/Bodies.antt =====
-- The bodies that WorkerHost::run of src/remote/worker_host.cpp gives the jobs of a request. What a
-- registered function answers is an argument.
use sub0pipeline.Prelude.{
  ℕ, ◌<◌, ◌≡◌, Bool, true, false, not, ◌&&◌, ◌||◌, Option, none, some, List, [], ◌∷◌, ◌==◌,
  if◌then◌else◌, length,
}
use sub0pipeline.Types.{JobStatus, PipelineError, Expected, value, unexpected}
use sub0pipeline.Invoke.{JobEnv}
use sub0pipeline.Wire.{WireEdge, SubGraphRequest}
use sub0pipeline.Channel.{error_byte}
use sub0pipeline.Worker.Pipeline.{Left, status_byte}

abbrev pub is_done : JobStatus → Bool
is_done JobStatus.done = true
is_done _ = false

-- The loop over predecessorIds[i]: whether it finds a predecessor that did not succeed. The edges from
-- `from` to `i` are what puts `from` there.
unfoldable pub blocked : (ℕ → Bool) → (ℕ → JobStatus) → List WireEdge → ℕ → Bool
blocked skipped status [] i = false
blocked skipped status (e ∷ es) i =
    ((e.to == i) && (skipped e.from || not (is_done (status e.from))))
    || blocked skipped status es i

-- `kind` is what the function of the registry answers, `none` without one.
abbrev pub kind_answer : Option (Expected (Unit {0})) → Expected (Unit {0})
kind_answer none = unexpected PipelineError.job_failed
kind_answer (some answer) = answer

-- What the body returns.
abbrev pub body : Bool → Option (Expected (Unit {0})) → Expected (Unit {0})
body skips kind = if skips then value tt else kind_answer kind

-- codes[i] after the run.
abbrev pub code_of : Bool → Option (Expected (Unit {0})) → ℕ
code_of false (some (unexpected e)) = error_byte e
code_of _ _ = error_byte PipelineError.job_failed

-- The bodies have run, without a cancellation, in a run that leaves these statuses. The predecessors of
-- a job are over when its body is called, so the body reads what the run leaves.
pub record Played (kinds : ℕ → Option (Expected (Unit {0}))) (req : SubGraphRequest)
    (env : ℕ → JobEnv) (left : ℕ → Left) (status : ℕ → JobStatus) : Type 0 where
  pub skips :
      (i : ℕ)
      → i < length req.jobs
      → (left i).skipped ≡ blocked (λ p. (left p).skipped) status req.edges i
  pub codes : (i : ℕ) → i < length req.jobs → (left i).code ≡ code_of (left i).skipped (kinds i)
  pub answers : (i : ℕ) → i < length req.jobs → (env i).body ≡ body (left i).skipped (kinds i)
  pub unstopped : (i : ℕ) → i < length req.jobs → (env i).stopped_at_entry ≡ false

-- The status that the reply gives a job before its output is sent.
abbrev pub final_status : (ℕ → Left) → (ℕ → JobStatus) → ℕ → ℕ
final_status left status i = if (left i).skipped then 5 else status_byte (status i)
