-- ===== src/Run/Threaded/Books.antt =====
-- The accounts of a run: every job that is over is counted, queued for the drain, or about to be
-- counted; skipMutex has one holder; and a run that skips a job has recorded a failure.
use sub0pipeline.Prelude.{
  ℕ, suc, ◌+◌, ◌≤◌, ◌<◌, ◌≡◌, ◌⊎◌, Bool, true, false, ◌==◌, if◌then◌else◌, total, length, AllBelow,
}
use sub0pipeline.Graph.{Graph}
use sub0pipeline.Run.{has_fatal_failure}
use sub0pipeline.Run.Base.{terminal, one_if}
use sub0pipeline.Run.Threaded.{
  Pc, Call, stored, releasing, deciding, claiming, submitting, rejected, recording_rejection,
  counting_rejection, reporting_rejection, skip_each, skipping, skip_reading, skip_queueing,
  rooting, within,
}
use sub0pipeline.Run.Threaded.Schedule.{System}
use sub0pipeline.Run.Threaded.Duties.{ending, spoilt}

abbrev pub call_uncounted : Call → ℕ
call_uncounted (recording_rejection s true) = 1
call_uncounted (counting_rejection s) = 1
call_uncounted (skip_queueing idx rest) = 1
call_uncounted _ = 0

-- A job is over, and the thread has still to count it.
abbrev pub uncounted : Pc → ℕ
uncounted (stored o) = 1
uncounted (within c k) = call_uncounted c + uncounted k
uncounted _ = 0

abbrev pub call_locks : Call → ℕ
call_locks skip_reading = 1
call_locks (skip_queueing idx rest) = 1
call_locks _ = 0

-- The thread holds skipMutex.
abbrev pub locks : Pc → ℕ
locks (within c k) = call_locks c + locks k
locks _ = 0

abbrev pub call_fails : Call → Bool
call_fails (deciding s) = false
call_fails (claiming s) = false
call_fails (submitting s) = false
call_fails (rejected s) = false
call_fails (recording_rejection s b) = false
call_fails _ = true

-- The thread has seen hasFatalFailure.
abbrev pub has_failed : Pc → Bool
has_failed (within c k) = if call_fails c then true else has_failed k
has_failed _ = false

-- The thread is about to record that the submission of job `j` failed.
abbrev pub rejects : ℕ → Pc → ℕ
rejects j (within (recording_rejection s true) k) = if j == s then 1 else 0
rejects j _ = 0

abbrev CallBelow : ℕ → Call → Type 0
CallBelow n (deciding s) = s < n
CallBelow n (claiming s) = s < n
CallBelow n (submitting s) = s < n
CallBelow n (rejected s) = s < n
CallBelow n (recording_rejection s b) = s < n
CallBelow n (counting_rejection s) = s < n
CallBelow n (reporting_rejection s d) = s < n
CallBelow n (skipping s) = s < n
CallBelow n (skip_each rest) = AllBelow n rest
CallBelow n (skip_queueing idx rest) = AllBelow n rest
CallBelow n _ = Unit {0}

-- The jobs that a thread names are jobs of the graph.
abbrev pub PcBelow : ℕ → Pc → Type 0
PcBelow n (releasing rest) = AllBelow n rest
PcBelow n (rooting rest) = AllBelow n rest
PcBelow n (within c k) = CallBelow n c × PcBelow n k
PcBelow n _ = Unit {0}

pub record Books (g : Graph) (t : System) : Type 0 where
  pub named : (p : ℕ) → p ≤ g.size → PcBelow g.size (t.pc p)
  pub stacked : AllBelow g.size t.shared.run.skipped_jobs
  pub counted :
      t.shared.run.completed_count
        + length t.shared.run.skipped_jobs
        + total (suc g.size) (λ p. uncounted (t.pc p))
      ≡ total g.size (λ j. one_if (terminal (t.shared.run.status j)))
  pub owned : total (suc g.size) (λ p. locks (t.pc p)) ≡ one_if t.shared.locked
  pub failed_first :
      (p : ℕ) → p ≤ g.size → has_failed (t.pc p) ≡ true → has_fatal_failure t.shared.run ≡ true
  pub recorded :
      (j : ℕ)
      → j < g.size
      → spoilt g j (t.shared.run.status j) ≡ true
      → (has_fatal_failure t.shared.run ≡ true)
        ⊎ (0 < ending (t.pc j) + total (suc g.size) (λ p. rejects j (t.pc p)))
