-- ===== src/Types.antt =====
-- error.hpp and the JobStatus of job.hpp, with std::expected and the status of a result.
use sub0pipeline.Prelude.{◌≡◌, refl, ◌⊎◌, inl, inr, Bool, true, false}

pub data PipelineError : Type 0 where
  timeout job_failed cyclic_dependency unknown_job not_armed not_on_demand : PipelineError
  cancelled busy deadline_unavailable unavailable : PipelineError

pub data JobStatus : Type 0 where
  pending ready running done failed skipped timed_out cancelled awaiting : JobStatus

-- std::expected<A, PipelineError>
pub data Expected {ℓ} (A : Type ℓ) : Type ℓ where
  value : A → Expected A
  unexpected : PipelineError → Expected A

pub Expected-cases {ℓ} :
    {A : Type ℓ} (r : Expected A)
    → ((e : PipelineError) × (r ≡ unexpected e)) ⊎ ((a : A) × (r ≡ value a))
Expected-cases (value a) = inr (a, refl)
Expected-cases (unexpected e) = inl (e, refl)

-- statusOf
unfoldable pub status_of : Expected (Unit {0}) → JobStatus
status_of (value v) = JobStatus.done
status_of (unexpected PipelineError.cancelled) = JobStatus.cancelled
status_of (unexpected PipelineError.timeout) = JobStatus.timed_out
status_of (unexpected e) = JobStatus.failed

-- `error == PipelineError::kCancelled`
abbrev pub is_cancelled : PipelineError → Bool
is_cancelled PipelineError.cancelled = true
is_cancelled _ = false
