-- ===== src/Run/Threaded/Notices.antt =====
-- What one move of a thread does to the reports of a run.
use sub0pipeline.Prelude.{
  ℕ, ◌+◌, ◌≤◌, ◌<◌, ◌≡◌, refl, ◌⊎◌, inl, inr, Bool, true, false, some, [], ◌∷◌, ◌==◌, arith,
  if◌then◌else◌, count, count-append, Option-cases,
}
use sub0pipeline.Types.{JobStatus, PipelineError, unexpected, status_of}
use sub0pipeline.Graph.{Graph}
use sub0pipeline.Run.{
  Run, is_fatal, is_ready, enqueue_skip, has_fatal_failure, notify_dependencies, record_failure,
}
use sub0pipeline.Run.Base.{one_if, terminal}
use sub0pipeline.Run.Log.{starts, finishes, tolerated}
use sub0pipeline.Run.Threaded.{
  Pc, recording, Shared, Move, start, report_job, fail_other, skip_joins, skip_drains, queue_skip,
}
use sub0pipeline.Run.Threaded.Claims.{Own, holds, active, is_claimed}
use sub0pipeline.Run.Threaded.Duties.{shaped}
use sub0pipeline.Run.Threaded.Moves.{guard}
use sub0pipeline.Run.Threaded.Books.{PcBelow, has_failed, rejects}
use sub0pipeline.Run.Threaded.Reports.{unreported, refused}

-- The right to submit a job comes with its becoming ready.
pub Move-fresh_right :
    {g : Graph} {i : ℕ} {m m' : Shared} {p p' : Pc} (s : ℕ)
    → Move g i m p m' p'
    → 0 < holds s p' + m'.accepted s
    → (0 < holds s p + m.accepted s) ⊎ (is_ready (m'.run.status s) ≡ true)
unfolding enqueue_skip notify_dependencies record_failure
Move-fresh_right {g} {i} s (report_job {o}) now = elim (Option-cases (is_fatal (g.node i) o)) [
  | inl fine ↦ ground (arith, fine, now)
  | inr (c, ended) ↦ ground (arith, ended, now)
]
Move-fresh_right s mv now = ground (arith, guard mv, now)

-- A ready job that no callback runs for stays ready, or the run fails.
pub Move-right :
    {g : Graph} {i : ℕ} {m m' : Shared} {p p' : Pc} (s : ℕ)
    → Move g i m p m' p'
    → (s ≡ i → active p ≡ 0)
    → (has_failed p ≡ true → has_fatal_failure m.run ≡ true)
    → is_ready (m.run.status s) ≡ true
    → (is_ready (m'.run.status s) ≡ true) ⊎ (has_fatal_failure m.run ≡ true) ⊎ (0 < rejects s p')
unfolding enqueue_skip notify_dependencies record_failure
Move-right s (start) away failed was = ground (arith, away, failed, was)
Move-right s mv away failed was = ground (arith, guard mv, away, failed, was)

pub Move-rejects :
    {g : Graph} {i : ℕ} {m m' : Shared} {p p' : Pc} (s : ℕ)
    → Move g i m p m' p'
    → shaped p ≡ true
    → (0 < rejects s p → (0 < rejects s p') ⊎ (has_fatal_failure m'.run ≡ true))
      × (0 < rejects s p'
          → (0 < rejects s p)
            ⊎ ((is_ready (m.run.status s) ≡ true)
                × (m'.run.status s ≡ JobStatus.failed)
                × (starts s m'.run.events ≡ starts s m.run.events)
                × (is_claimed p' ≡ 0)))
unfolding enqueue_skip notify_dependencies record_failure
Move-rejects s (start) loop = ground arith
Move-rejects s mv loop = ground (arith, guard mv, loop)

-- A thread that finds a rejected job no longer ready held the right to submit it.
pub Move-refused :
    {g : Graph} {i : ℕ} {m m' : Shared} {p p' : Pc}
    → Move g i m p m' p'
    → shaped p ≡ true
    → PcBelow g.size p
    → 0 < refused p'
    → (0 < refused p)
      ⊎ ((s : ℕ) × (s < g.size)
          × (is_ready (m.run.status s) ≡ false)
          × (rejects s p + 1 ≤ holds s p))
unfolding enqueue_skip notify_dependencies record_failure
Move-refused (fail_other {s} {k} h) loop named now =
    inr (s, named.0, ground (arith, h), ground arith)
Move-refused mv loop named now = ground (arith, loop, now)

-- A job that failed without being called stays so.
pub Move-uncalled :
    {g : Graph} {i : ℕ} {m m' : Shared} {p p' : Pc} (s : ℕ)
    → Move g i m p m' p'
    → Own (g.node i) (m.run.status i) p
    → m.run.status s ≡ JobStatus.failed
    → starts s m.run.events + (if s == i then is_claimed p else 0) ≡ 0
    → (m'.run.status s ≡ JobStatus.failed)
      × (starts s m'.run.events + (if s == i then is_claimed p' else 0) ≡ 0)
unfolding enqueue_skip notify_dependencies record_failure
Move-uncalled s (start) own was never = ground (arith, own, was, never)
Move-uncalled s mv own was never = ground (arith, guard mv, own, was, never)

-- The status of an error stays.
pub Move-ended :
    {g : Graph} {i : ℕ} {m m' : Shared} {p p' : Pc} (x : ℕ) (error : PipelineError)
    → Move g i m p m' p'
    → Own (g.node i) (m.run.status i) p
    → m.run.status x ≡ status_of (unexpected error)
    → m'.run.status x ≡ m.run.status x
unfolding enqueue_skip notify_dependencies record_failure status_of
Move-ended x error (start) own was = refl
Move-ended x error mv own was = ground (arith, guard mv, own, was)

abbrev pub is_recording : Pc → Bool
is_recording (recording error) = true
is_recording _ = false

-- Who records a failure.
pub Move-fatal :
    {g : Graph} {i : ℕ} {m m' : Shared} {p p' : Pc} (error : PipelineError) (x : ℕ)
    → Move g i m p m' p'
    → Own (g.node i) (m.run.status i) p
    → (0 < refused p → has_fatal_failure m.run ≡ true)
    → m'.run.fatal ≡ some (error, x)
    → (m.run.fatal ≡ some (error, x))
      ⊎ ((x ≡ i)
          × (is_recording p ≡ true)
          × (m.run.status x ≡ status_of (unexpected error))
          × (tolerated (g.node x).optional (m.run.status x) ≡ false))
      ⊎ ((error ≡ PipelineError.job_failed) × (0 < rejects x p))
unfolding enqueue_skip notify_dependencies record_failure
Move-fatal error x (start) own noted now = inl now
Move-fatal error x mv own noted now = ground (arith, own, noted, now)

enqueue_skip-once :
    (j s : ℕ) (r : Run)
    → finishes j (enqueue_skip s r).events
        + count j (enqueue_skip s r).skipped_jobs
        + one_if (terminal (r.status j))
      ≡ finishes j r.events
        + count j r.skipped_jobs
        + one_if (terminal ((enqueue_skip s r).status j))
unfolding enqueue_skip
enqueue_skip-once j s r = ground (arith, count-append j r.skipped_jobs (s ∷ []))

pub Move-once :
    {g : Graph} {i : ℕ} {m m' : Shared} {p p' : Pc} (j : ℕ)
    → Move g i m p m' p'
    → Own (g.node i) (m.run.status i) p
    → shaped p ≡ true
    → finishes j m'.run.events
        + count j m'.run.skipped_jobs
        + unreported j i p'
        + one_if (terminal (m.run.status j))
      ≡ finishes j m.run.events
        + count j m.run.skipped_jobs
        + unreported j i p
        + one_if (terminal (m'.run.status j))
unfolding notify_dependencies record_failure status_of
Move-once {m} j (skip_joins {s} h h') own loop = ground (arith, enqueue_skip-once j s m.run)
Move-once {m} j (skip_drains {s} h h') own loop = ground (arith, enqueue_skip-once j s m.run)
Move-once {m} j (queue_skip {s}) own loop = ground (arith, enqueue_skip-once j s m.run)
Move-once {g} {i} j (report_job {o}) own loop = elim (Option-cases (is_fatal (g.node i) o)) [
  | inl fine ↦ ground (arith, fine, own)
  | inr (c, ended) ↦ ground (arith, ended, own)
]
Move-once j mv own loop = ground (arith, guard mv, own, loop)
