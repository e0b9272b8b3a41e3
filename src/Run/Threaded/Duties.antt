-- ===== src/Run/Threaded/Duties.antt =====
-- What keeps a run from ending with a job left behind: for each job that still waits there is a
-- thread that will submit, claim or skip it.
use sub0pipeline.Prelude.{
  ℕ, suc, ◌+◌, ◌≤◌, ◌<◌, ◌≡◌, ◌⊎◌, Bool, true, false, ◌||◌, ◌==◌, if◌then◌else◌, count, total,
  length,
}
use sub0pipeline.Types.{JobStatus}
use sub0pipeline.Graph.{Graph}
use sub0pipeline.Graph.Degrees.{Edge}
use sub0pipeline.Run.{is_ready, is_pending}
use sub0pipeline.Run.Base.{terminal, one_if}
use sub0pipeline.Run.Log.{tolerated}
use sub0pipeline.Run.Threaded.{
  Pc, Call, idle, awaiting_all, over, entered, checked, claimed, calling, returned, stored, counted,
  failing, recording, releasing, deciding, claiming, submitting, rejected, recording_rejection,
  counting_rejection, reporting_rejection, skip_each, skipping, skip_reading, skip_queueing,
  skip_reporting, skip_locking, rooting, within,
}
use sub0pipeline.Run.Threaded.Schedule.{System}
use sub0pipeline.Run.Threaded.Claims.{claims, owed}

abbrev pub call_duty : ℕ → Call → ℕ
call_duty j (submitting s) = if j == s then 1 else 0
call_duty j (rejected s) = 1
call_duty j (recording_rejection s b) = 1
call_duty j (counting_rejection s) = 1
call_duty j (reporting_rejection s d) = 1
call_duty j (skip_each rest) = count j rest
call_duty j (skipping s) = if j == s then 1 else 0
call_duty j (skip_queueing idx rest) = count j rest
call_duty j _ = 0

-- How often the thread will submit or skip job `j`; after a rejected dispatch it skips every job.
abbrev pub duty : ℕ → Pc → ℕ
duty j (rooting rest) = count j rest
duty j (within c k) = call_duty j c + duty j k
duty j _ = 0

-- dispatchJob has not tried to claim the job.
abbrev pub at_start : Pc → ℕ
at_start entered = 1
at_start checked = 1
at_start _ = 0

-- The job's result is not passed on to its successors.
abbrev pub ending : Pc → ℕ
ending (stored o) = 1
ending (counted o d) = 1
ending (failing e) = 1
ending (recording e) = 1
ending _ = 0

abbrev pub in_call : Pc → ℕ
in_call claimed = 1
in_call calling = 1
in_call (returned o) = 1
in_call _ = 0

abbrev pub is_running : JobStatus → Bool
is_running JobStatus.running = true
is_running JobStatus.awaiting = true
is_running _ = false

abbrev pub call_drains : Call → ℕ
call_drains skip_reading = 1
call_drains (skip_queueing idx rest) = 1
call_drains (skip_reporting idx d) = 1
call_drains skip_locking = 1
call_drains _ = 0

-- The thread is the one that drains skipped_.
abbrev pub drains : Pc → ℕ
drains (within c k) = call_drains c + drains k
drains _ = 0

abbrev is_loop : Pc → Bool
is_loop (releasing rest) = true
is_loop (rooting rest) = true
is_loop _ = false

abbrev is_end : Pc → Bool
is_end idle = true
is_end awaiting_all = true
is_end _ = false

-- Where skipNode is called from.
abbrev pub resumes : Pc → Bool
resumes (within (skip_each rest) k) = is_end k
resumes (within c k) = false
resumes p = is_loop p || is_end p

-- Jobs are submitted from the two loops that submit jobs, and calls of skipNode return to one of
-- those loops, to a loop that skips jobs, or to the end of the thread's work.
abbrev pub shaped : Pc → Bool
shaped (within (deciding s) k) = is_loop k
shaped (within (claiming s) k) = is_loop k
shaped (within (submitting s) k) = is_loop k
shaped (within (rejected s) k) = is_end k
shaped (within (recording_rejection s b) k) = is_end k
shaped (within (counting_rejection s) k) = is_end k
shaped (within (reporting_rejection s d) k) = is_end k
shaped (within (skip_each rest) k) = is_end k
shaped (within c k) = resumes k
shaped _ = true

-- The thread works for the one that called run().
abbrev pub on_root : Pc → Bool
on_root (rooting rest) = true
on_root awaiting_all = true
on_root over = true
on_root (within c k) = on_root k
on_root _ = false

-- What will still be done about a job that waits.
abbrev pub care : Graph → ℕ → System → ℕ
care g j t = total (suc g.size) (λ p. duty j (t.pc p)) + t.shared.accepted j + at_start (t.pc j)

-- The job is over with a result that ends the run, or was skipped.
abbrev pub spoilt : Graph → ℕ → JobStatus → Bool
spoilt g q st =
    if terminal st then (if tolerated (g.node q).optional st then false else true) else false

pub record Ends (g : Graph) (t : System) : Type 0 where
  pub loops : (p : ℕ) → p ≤ g.size → shaped (t.pc p) ≡ true
  pub jobs : (p : ℕ) → p < g.size → on_root (t.pc p) ≡ false
  pub drained : total (suc g.size) (λ p. drains (t.pc p)) ≡ one_if t.shared.run.draining_skips
  pub watched : 0 < length t.shared.run.skipped_jobs → t.shared.run.draining_skips ≡ true
  pub served : (j : ℕ) → j < g.size → is_ready (t.shared.run.status j) ≡ true → 0 < care g j t
  pub runs : (j : ℕ) → j < g.size → is_running (t.shared.run.status j) ≡ true → 0 < in_call (t.pc j)
  pub complete :
      (j : ℕ)
      → j < g.size
      → is_pending (t.shared.run.status j) ≡ true
      → (0 < care g j t) ⊎ (t.shared.run.unmet_deps j ≤ total g.size (owed g j t))
  pub claimable :
      (j : ℕ)
      → j < g.size
      → is_pending (t.shared.run.status j) ≡ true
      → t.shared.run.unmet_deps j ≡ 0
      → 0 < total (suc g.size) (λ p. claims j (t.pc p)) + care g j t
  pub doomed :
      (j q : ℕ)
      → j < g.size
      → q < g.size
      → Edge g q j
      → is_pending (t.shared.run.status j) ≡ true
      → spoilt g q (t.shared.run.status q) ≡ true
      → 0 < count q t.shared.run.skipped_jobs + ending (t.pc q) + care g j t
