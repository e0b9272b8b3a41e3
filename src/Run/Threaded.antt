-- ===== src/Run/Threaded.antt =====
-- The other branch of Pipeline::runImpl of src/sub0pipeline.cpp: a run on an executor that calls
-- jobs on threads of its own. Thread `i`, below the number of jobs, is the executor's callback of
-- job `i`, and thread `size` is the one that called run(). A `Move` is one access to the shared
-- state, or calls of user code that follow each other. An access under fatalMtx or skipMutex is taken
-- together with a lock just before it and an unlock just after it. The run has no deferred jobs, and
-- an observer is attached.
pub mod Schedule
pub mod Claims
pub mod Moves
pub mod Transfers
pub mod Safety
pub mod Duties
pub mod Turns
pub mod Progress
pub mod Reachable
pub mod Books
pub mod Entries
pub mod Accounts
pub mod Reports
pub mod Notices
pub mod Causes
pub mod Guarantees
pub mod Chances
pub mod Deadlock
pub mod Measure
pub mod Termination
use sub0pipeline.Prelude.{
  ℕ, zero, suc, ◌-◌, ◌<◌, ◌≤◌, ◌≡◌, ◌≢◌, Bool, true, false, Option, none, some, List, [], ◌∷◌, ◌++◌,
  ◌==◌, if◌then◌else◌, update, inc32, dec32,
}
use sub0pipeline.Types.{
  Expected, value, unexpected, PipelineError, JobStatus, pending, ready, running, skipped,
  status_of,
}
use sub0pipeline.Graph.{Graph}
use sub0pipeline.Invoke.{JobEnv, invoke}
use sub0pipeline.Run.{
  Run, Event, started, finished, failed, has_fatal_failure, is_pending, is_ready, emit,
  notify_dependencies, record_failure, enqueue_skip, is_fatal, init, roots,
}

-- A call, or a step of the release loop, that a thread is in.
pub data Call : Type 0 where
  deciding : (s : ℕ) → Call  -- hasFatalFailure was read as false for successor `s`
  claiming : (s : ℕ) → Call  -- fetch_sub left 0
  submitting : (s : ℕ) → Call  -- before executor.dispatch
  rejected : (s : ℕ) → Call  -- start of submissionFailed
  recording_rejection : (s : ℕ) (was_ready : Bool) → Call
  counting_rejection : (s : ℕ) → Call  -- before its fetch_add
  reporting_rejection : (s : ℕ) (done : ℕ) → Call
  skip_each : (rest : List ℕ) → Call  -- a loop that calls skipNode
  skipping : (s : ℕ) → Call  -- start of skipNode
  skip_reading : Call  -- the `while` of skipNode, skipMutex held
  skip_queueing : (idx : ℕ) (rest : List ℕ) → Call  -- its loop over the successors
  skip_reporting : (idx : ℕ) (done : ℕ) → Call  -- skipMutex released for the observer
  skip_locking : Call

-- Where a thread stands, with the local variables that are live there.
pub data Pc : Type 0 where
  idle : Pc  -- no callback of this job runs
  entered : Pc  -- start of dispatchJob
  checked : Pc  -- hasFatalFailure was read as false
  claimed : Pc  -- the compare-exchange to kRunning succeeded
  calling : Pc  -- before impl.invoke(nd)
  returned : (result : Expected (Unit {0})) → Pc  -- start of finishJob
  stored : (result : Expected (Unit {0})) → Pc  -- the status is stored
  counted : (result : Expected (Unit {0})) (done : ℕ) → Pc  -- completedCount_ is raised
  failing : (error : PipelineError) → Pc  -- before onJobFailure
  recording : (error : PipelineError) → Pc  -- before recordFailure
  releasing : (rest : List ℕ) → Pc  -- head of the last loop of finishJob
  rooting : (rest : List ℕ) → Pc  -- head of the loop over roots_
  awaiting_all : Pc  -- executor.waitAll()
  over : Pc
  within : (call : Call) (next : Pc) → Pc  -- in `call`, to go on at `next`

-- What the threads share: the run's part of the pipeline and of the DispatchContext, how many
-- callbacks of each job the executor has accepted and not yet called, and skipMutex.
pub record Shared : Type 0 where
  pub run : Run
  pub accepted : ℕ → ℕ
  pub locked : Bool

abbrev pub set_status : ℕ → JobStatus → Run → Run
set_status i st r = record r { status = update r.status i st }

-- completedCount_.fetch_add(1)
abbrev pub count_one : Run → Run
count_one r = record r { completed_count = inc32 r.completed_count }

abbrev pub lower : ℕ → Run → Run
lower s r = record r { unmet_deps = update r.unmet_deps s (dec32 (r.unmet_deps s)) }

-- onJobFinish and notifyDependencies.
abbrev pub report_finish : Graph → ℕ → JobStatus → ℕ → Run → Run
report_finish g i st done r = notify_dependencies g i (emit (finished i st done) r)

-- finishJob after its first observer calls.
abbrev pub after_finish : Graph → ℕ → Expected (Unit {0}) → Pc
after_finish g i result = elim (is_fatal (g.node i) result) [
  | none ↦ releasing (g.node i).successors
  | some e ↦ failing e
]

-- Where a thread goes on whose dispatch was rejected: the thread of run() leaves its loop over the
-- roots, and a callback ends.
abbrev pub abandon : Graph → ℕ → Pc
abandon g i = if i == g.size then awaiting_all else idle

-- The jobs from 0 to `k - 1`.
abbrev pub below : ℕ → List ℕ
below zero = []
below (suc k) = below k ++ k ∷ []

-- One move of thread `i`.
pub data Move (g : Graph) (i : ℕ) (m : Shared) : Pc → Shared → Pc → Type 0 where
  call_back :
      0 < m.accepted i
      → Move g i m idle (record m { accepted = update m.accepted i (m.accepted i - 1) }) entered
  dispatch_skips : has_fatal_failure m.run ≡ true → Move g i m entered m (within (skipping i) idle)
  dispatch_goes : has_fatal_failure m.run ≡ false → Move g i m entered m checked
  claim :
      m.run.status i ≡ ready
      → Move g i m checked (record m { run = set_status i running m.run }) claimed
  claim_lost : m.run.status i ≢ ready → Move g i m checked m idle
  start : Move g i m claimed (record m { run = emit (started i) m.run }) calling
  call : (env : JobEnv) → Move g i m calling m (returned (invoke (g.node i) env).result)
  store_status :
      {o : Expected (Unit {0})}
      → Move g i m (returned o) (record m { run = set_status i (status_of o) m.run }) (stored o)
  count_job :
      {o : Expected (Unit {0})}
      → Move g i m
          (stored o)
          (record m { run = count_one m.run })
          (counted o (inc32 m.run.completed_count))
  report_job :
      {o : Expected (Unit {0})} {done : ℕ}
      → Move g i m
          (counted o done)
          (record m { run = report_finish g i (status_of o) done m.run })
          (after_finish g i o)
  report_failure :
      {e : PipelineError}
      → Move g i m (failing e) (record m { run = emit (failed i e) m.run }) (recording e)
  record_job :
      {e : PipelineError}
      → Move g i m
          (recording e)
          (record m { run = record_failure i e m.run })
          (within (skip_each (g.node i).successors) idle)
  release_end : Move g i m (releasing []) m idle
  release_skips :
      {s : ℕ} {rest : List ℕ}
      → has_fatal_failure m.run ≡ true
      → Move g i m (releasing (s ∷ rest)) m (within (skipping s) (releasing rest))
  release_goes :
      {s : ℕ} {rest : List ℕ}
      → has_fatal_failure m.run ≡ false
      → Move g i m (releasing (s ∷ rest)) m (within (deciding s) (releasing rest))
  lower_last :
      {s : ℕ} {k : Pc}
      → dec32 (m.run.unmet_deps s) ≡ 0
      → Move g i m
          (within (deciding s) k)
          (record m { run = lower s m.run })
          (within (claiming s) k)
  lower_one :
      {s : ℕ} {k : Pc}
      → dec32 (m.run.unmet_deps s) ≢ 0
      → Move g i m (within (deciding s) k) (record m { run = lower s m.run }) k
  make_ready :
      {s : ℕ} {k : Pc}
      → m.run.status s ≡ pending
      → Move g i m
          (within (claiming s) k)
          (record m { run = set_status s ready m.run })
          (within (submitting s) k)
  not_pending : {s : ℕ} {k : Pc} → m.run.status s ≢ pending → Move g i m (within (claiming s) k) m k
  accept :
      {s : ℕ} {k : Pc}
      → Move g i m
          (within (submitting s) k)
          (record m { accepted = update m.accepted s (suc (m.accepted s)) })
          k
  reject :
      {s : ℕ} {k : Pc} → Move g i m (within (submitting s) k) m (within (rejected s) (abandon g i))
  fail_ready :
      {s : ℕ} {k : Pc}
      → m.run.status s ≡ ready
      → Move g i m
          (within (rejected s) k)
          (record m { run = set_status s JobStatus.failed m.run })
          (within (recording_rejection s true) k)
  fail_other :
      {s : ℕ} {k : Pc}
      → m.run.status s ≢ ready
      → Move g i m (within (rejected s) k) m (within (recording_rejection s false) k)
  record_rejection :
      {s : ℕ} {k : Pc}
      → Move g i m
          (within (recording_rejection s true) k)
          (record m { run = record_failure s PipelineError.job_failed m.run })
          (within (counting_rejection s) k)
  record_only :
      {s : ℕ} {k : Pc}
      → Move g i m
          (within (recording_rejection s false) k)
          (record m { run = record_failure s PipelineError.job_failed m.run })
          (within (skip_each (below g.size)) k)
  count_rejection :
      {s : ℕ} {k : Pc}
      → Move g i m
          (within (counting_rejection s) k)
          (record m { run = count_one m.run })
          (within (reporting_rejection s (inc32 m.run.completed_count)) k)
  report_rejection :
      {s done : ℕ} {k : Pc}
      → Move g i m
          (within (reporting_rejection s done) k)
          (record m {
            run = notify_dependencies g s (
                emit
                  (failed s PipelineError.job_failed)
                  (emit (finished s JobStatus.failed done) m.run));
          })
          (within (skip_each (below g.size)) k)
  skip_end : {k : Pc} → Move g i m (within (skip_each []) k) m k
  skip_next :
      {s : ℕ} {rest : List ℕ} {k : Pc}
      → Move g i m
          (within (skip_each (s ∷ rest)) k)
          m
          (within (skipping s) (within (skip_each rest) k))
  skip_joins :
      {s : ℕ} {k : Pc}
      → m.locked ≡ false
      → m.run.draining_skips ≡ true
      → Move g i m (within (skipping s) k) (record m { run = enqueue_skip s m.run }) k
  skip_drains :
      {s : ℕ} {k : Pc}
      → m.locked ≡ false
      → m.run.draining_skips ≡ false
      → Move g i m
          (within (skipping s) k)
          (record m {
            run = record (enqueue_skip s m.run) { draining_skips = true };
            locked = true;
          })
          (within skip_reading k)
  read_next :
      {idx : ℕ} {rest : List ℕ} {k : Pc}
      → m.run.skipped_jobs ≡ idx ∷ rest
      → Move g i m
          (within skip_reading k)
          (record m { run = record m.run { skipped_jobs = rest } })
          (within (skip_queueing idx (g.node idx).successors) k)
  drain_end :
      {k : Pc}
      → m.run.skipped_jobs ≡ []
      → Move g i m
          (within skip_reading k)
          (record m { run = record m.run { draining_skips = false }; locked = false })
          k
  queue_skip :
      {idx s : ℕ} {rest : List ℕ} {k : Pc}
      → Move g i m
          (within (skip_queueing idx (s ∷ rest)) k)
          (record m { run = enqueue_skip s m.run })
          (within (skip_queueing idx rest) k)
  count_skip :
      {idx : ℕ} {k : Pc}
      → Move g i m
          (within (skip_queueing idx []) k)
          (record m { run = count_one m.run; locked = false })
          (within (skip_reporting idx (inc32 m.run.completed_count)) k)
  report_skip :
      {idx done : ℕ} {k : Pc}
      → Move g i m
          (within (skip_reporting idx done) k)
          (record m { run = report_finish g idx skipped done m.run })
          (within skip_locking k)
  lock_again :
      {k : Pc}
      → m.locked ≡ false
      → Move g i m (within skip_locking k) (record m { locked = true }) (within skip_reading k)
  roots_end : Move g i m (rooting []) m awaiting_all
  root_skips :
      {s : ℕ} {rest : List ℕ}
      → has_fatal_failure m.run ≡ true
      → Move g i m (rooting (s ∷ rest)) m (within (skipping s) (rooting rest))
  root_goes :
      {s : ℕ} {rest : List ℕ}
      → has_fatal_failure m.run ≡ false
      → Move g i m (rooting (s ∷ rest)) m (within (submitting s) (rooting rest))
