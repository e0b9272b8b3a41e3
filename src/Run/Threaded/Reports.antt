-- ===== src/Run/Threaded/Reports.antt =====
-- What the observer and the caller of run() are told: each job that is over is reported once, and
-- the failure that is recorded has a cause.
use sub0pipeline.Prelude.{
  ℕ, suc, ◌+◌, ◌<◌, ◌≤◌, ◌≡◌, ◌⊎◌, true, false, some, ◌==◌, if◌then◌else◌, count, total,
}
use sub0pipeline.Types.{JobStatus, PipelineError, unexpected, status_of}
use sub0pipeline.Graph.{Graph}
use sub0pipeline.Run.{has_fatal_failure, is_ready}
use sub0pipeline.Run.Base.{terminal, one_if}
use sub0pipeline.Run.Log.{starts, finishes, tolerated}
use sub0pipeline.Run.Threaded.{
  Pc, Call, stored, counted, recording_rejection, counting_rejection, reporting_rejection,
  skip_queueing, skip_reporting, within,
}
use sub0pipeline.Run.Threaded.Schedule.{System}
use sub0pipeline.Run.Threaded.Claims.{holds, is_claimed}
use sub0pipeline.Run.Threaded.Books.{rejects}

abbrev pub call_unreported : ℕ → Call → ℕ
call_unreported j (recording_rejection s true) = if j == s then 1 else 0
call_unreported j (counting_rejection s) = if j == s then 1 else 0
call_unreported j (reporting_rejection s d) = if j == s then 1 else 0
call_unreported j (skip_queueing idx rest) = if j == idx then 1 else 0
call_unreported j (skip_reporting idx d) = if j == idx then 1 else 0
call_unreported j _ = 0

-- Thread `i` has still to report that job `j` is over.
abbrev pub unreported : (j i : ℕ) → Pc → ℕ
unreported j i (stored o) = if j == i then 1 else 0
unreported j i (counted o d) = if j == i then 1 else 0
unreported j i (within c k) = call_unreported j c + unreported j i k
unreported j i _ = 0

-- The thread found that the job whose dispatch was rejected was no longer ready.
abbrev pub refused : Pc → ℕ
refused (within (recording_rejection s false) k) = 1
refused _ = 0

-- The dispatch of the job was rejected, and the job was never called.
abbrev pub Uncalled : ℕ → System → Type 0
Uncalled s t =
    (t.shared.run.status s ≡ JobStatus.failed)
    × (starts s t.shared.run.events + is_claimed (t.pc s) ≡ 0)

-- Why `error` is recorded for job `x`: the job ended with a result that ends the run, or its
-- dispatch was rejected.
abbrev pub Cause : Graph → System → PipelineError → ℕ → Type 0
Cause g t error x =
    (x < g.size)
    × (t.shared.run.status x ≡ status_of (unexpected error))
    × ((tolerated (g.node x).optional (t.shared.run.status x) ≡ false)
        ⊎ ((error ≡ PipelineError.job_failed) × Uncalled x t))

pub record Reports (g : Graph) (t : System) : Type 0 where
  pub held :
      (s : ℕ)
      → s < g.size
      → 0 < total (suc g.size) (λ p. holds s (t.pc p)) + t.shared.accepted s
      → (is_ready (t.shared.run.status s) ≡ true)
        ⊎ (has_fatal_failure t.shared.run ≡ true)
        ⊎ (0 < total (suc g.size) (λ p. rejects s (t.pc p)))
  pub noted : (p : ℕ) → p ≤ g.size → 0 < refused (t.pc p) → has_fatal_failure t.shared.run ≡ true
  pub uncalled :
      (s : ℕ) → s < g.size → 0 < total (suc g.size) (λ p. rejects s (t.pc p)) → Uncalled s t
  pub caused :
      (error : PipelineError) (x : ℕ) → t.shared.run.fatal ≡ some (error, x) → Cause g t error x
  pub once :
      (j : ℕ)
      → j < g.size
      → finishes j t.shared.run.events
          + count j t.shared.run.skipped_jobs
          + total (suc g.size) (λ p. unreported j p (t.pc p))
        ≡ one_if (terminal (t.shared.run.status j))
