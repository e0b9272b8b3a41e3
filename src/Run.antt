-- ===== src/Run.antt =====
-- Pipeline::runImpl of src/sub0pipeline.cpp on an executor with runsInline(): the run thread takes
-- jobs from the worklist inlineReady_, calls each one, and releases or skips its successors.
-- A vector that is read through a cursor (inlineReady_ by `next`, skipped_ by skipRead) is its unread
-- part. The run has no deferred jobs, and an observer is attached: its calls are `events`, newest
-- first.
pub mod Log
pub mod Base
pub mod Blocked
pub mod Skips
pub mod Live
pub mod Finish
pub mod Fatal
pub mod Loop
pub mod Start
pub mod Completion
pub mod Results
pub mod Entry
pub mod Threaded
use sub0pipeline.Prelude.{
  ℕ, zero, suc, Bool, true, false, not, ◌&&◌, ◌||◌, Option, none, some, List, [], ◌∷◌, ◌++◌, ◌==◌,
  if◌then◌else◌, update, inc32, dec32,
}
use sub0pipeline.Types.{
  Expected, value, unexpected, PipelineError, JobStatus, pending, ready, running, skipped,
  status_of, is_cancelled,
}
use sub0pipeline.Graph.{Graph, Node}
use sub0pipeline.Invoke.{JobEnv, invoke}

-- The observer's calls of one run.
pub data Event : Type 0 where
  started : ℕ → Event
  finished : ℕ → JobStatus → (done : ℕ) → Event  -- onJobFinish; progress is done / total
  failed : ℕ → PipelineError → Event  -- onJobFailure
  resolved : ℕ → Event  -- onDependenciesResolved

-- What a run changes: the nodes' jobStatus_ and unmetDeps_, and the DispatchContext.
pub record Run : Type 0 where
  pub status : ℕ → JobStatus
  pub unmet_deps : ℕ → ℕ
  pub completed_count : ℕ
  pub fatal : Option (PipelineError × ℕ)  -- fatalError, and the job of failedJobName_
  pub skipped_jobs : List ℕ
  pub draining_skips : Bool
  pub inline_ready : List ℕ
  pub events : List Event

abbrev pub has_fatal_failure : Run → Bool
has_fatal_failure r = elim (r.fatal) [ none ↦ false | some e ↦ true ]

abbrev pub is_pending : JobStatus → Bool
is_pending pending = true
is_pending _ = false

abbrev pub is_ready : JobStatus → Bool
is_ready ready = true
is_ready _ = false

abbrev pub emit : Event → Run → Run
emit e r = record r { events = e ∷ r.events }

abbrev is_empty : List ℕ → Bool
is_empty [] = true
is_empty (x ∷ xs) = false

-- notifyDependencies
pub notify_dependencies : Graph → ℕ → Run → Run
notify_dependencies g idx r = if is_empty (g.node idx).successors then r else emit (resolved idx) r

-- DispatchContext::recordFailure
pub record_failure : ℕ → PipelineError → Run → Run
record_failure idx error r =
    if has_fatal_failure r then r else record r { fatal = some (error, idx) }

-- DispatchContext::enqueueSkip
pub enqueue_skip : ℕ → Run → Run
enqueue_skip idx r =
    if is_pending (r.status idx) || is_ready (r.status idx)
    then record r {
      status = update r.status idx skipped;
      skipped_jobs = r.skipped_jobs ++ idx ∷ [];
    }
    else r

pub enqueue_skips : List ℕ → Run → Run
enqueue_skips [] r = r
enqueue_skips (s ∷ ss) r = enqueue_skips ss (enqueue_skip s r)

-- onJobFinish for a job that has just been counted, and notifyDependencies.
pub report : Graph → ℕ → JobStatus → Run → Run
unfolding notify_dependencies
report g idx st r = notify_dependencies g idx (emit (finished idx st r.completed_count) r)

-- One round of the `while` loop of skipNode: `idx` is read and `rest` is unread.
pub skip_one : Graph → ℕ → List ℕ → Run → Run
unfolding enqueue_skips enqueue_skip report
skip_one g idx rest r =
    let queued = enqueue_skips (g.node idx).successors (record r { skipped_jobs = rest }) in
    report g idx skipped (record queued { completed_count = inc32 queued.completed_count })

-- The `while` test of skipNode.
pub read_skipped : Graph → (Run → Run) → List ℕ → Run → Run
read_skipped g next [] r = r
read_skipped g next (idx ∷ rest) r = next (skip_one g idx rest r)

pub drain : Graph → ℕ → Run → Run
unfolding read_skipped skip_one
drain g zero r = r
drain g (suc fuel) r = read_skipped g (drain g fuel) r.skipped_jobs r

-- DispatchContext::skipNode. Each round counts a job that no other round counts, so `size` rounds
-- are enough.
pub skip_node : Graph → ℕ → Run → Run
unfolding enqueue_skip drain
skip_node g start r =
    let queued = enqueue_skip start r in
    if queued.draining_skips
    then queued
    else record (drain g g.size (record queued { draining_skips = true })) {
      draining_skips = false;
    }

pub skip_nodes : Graph → List ℕ → Run → Run
unfolding skip_node
skip_nodes g [] r = r
skip_nodes g (s ∷ ss) r = skip_nodes g ss (skip_node g s r)

-- A result that ends the run: a failure of a required job, or a cancellation.
abbrev pub is_fatal : Node → Expected (Unit {0}) → Option PipelineError
is_fatal nd (value v) = none
is_fatal nd (unexpected e) = if not nd.optional || is_cancelled e then some e else none

-- The body of the last loop of finishJob.
pub release_one : Graph → ℕ → Run → Run
unfolding skip_node
release_one g s r =
    if has_fatal_failure r
    then skip_node g s r
    else (let remaining = dec32 (r.unmet_deps s) in
        let lowered = record r { unmet_deps = update r.unmet_deps s remaining } in
        if remaining == 0 && is_pending (r.status s)
        then record lowered {
          status = update r.status s ready;
          inline_ready = r.inline_ready ++ s ∷ [];
        }
        else lowered)

pub release : Graph → List ℕ → Run → Run
unfolding release_one
release g [] r = r
release g (s ∷ ss) r = release g ss (release_one g s r)

-- finishJob up to its test for failure: the status, the count and the observer's calls.
pub settle : Graph → ℕ → JobStatus → Run → Run
unfolding report
settle g idx st r =
    report g idx st
      (record r { status = update r.status idx st; completed_count = inc32 r.completed_count })

-- finishJob after that: skip the successors of a fatal failure, release those of any other job.
pub propagate : Graph → ℕ → Option PipelineError → Run → Run
unfolding record_failure skip_nodes release
propagate g idx (some error) r =
    skip_nodes g (g.node idx).successors (record_failure idx error (emit (failed idx error) r))
propagate g idx none r = release g (g.node idx).successors r

-- DispatchContext::finishJob
pub finish_job : Graph → ℕ → Expected (Unit {0}) → Run → Run
unfolding status_of settle propagate
finish_job g idx result r =
    propagate g idx (is_fatal (g.node idx) result) (settle g idx (status_of result) r)

-- dispatchJob once it has claimed the job.
pub execute : Graph → (ℕ → JobEnv) → ℕ → Run → Run
unfolding invoke finish_job
execute g env idx r =
    finish_job g idx (invoke (g.node idx) (env idx)).result
      (emit (started idx) (record r { status = update r.status idx running }))

-- DispatchContext::dispatchJob
pub dispatch_job : Graph → (ℕ → JobEnv) → ℕ → Run → Run
unfolding skip_node execute
dispatch_job g env idx r =
    if has_fatal_failure r
    then skip_node g idx r
    else if is_ready (r.status idx)
    then execute g env idx r
    else r

-- The test of the loop `for (; next < ready.size(); ++next)`.
pub read_ready : Graph → (ℕ → JobEnv) → (Run → Run) → List ℕ → Run → Run
unfolding dispatch_job
read_ready g env next [] r = r
read_ready g env next (idx ∷ rest) r =
    next (dispatch_job g env idx (record r { inline_ready = rest }))

pub run_loop : Graph → (ℕ → JobEnv) → ℕ → Run → Run
unfolding read_ready
run_loop g env zero r = r
run_loop g env (suc fuel) r = read_ready g env (run_loop g env fuel) r.inline_ready r

-- predecessorCount_ == 0 and not on-demand: a root, which starts as kReady.
abbrev pub is_root : Node → Bool
is_root nd = (nd.predecessor_count == 0) && not nd.on_demand

-- The roots among the first `k` nodes.
pub roots : Graph → ℕ → List ℕ
roots g zero = []
roots g (suc k) = roots g k ++ (if is_root (g.node k) then k ∷ [] else [])

-- The state of the nodes and of the context when the run starts.
pub init : Graph → Run
unfolding roots
init g = record {
  status = λ i. if is_root (g.node i) then ready else pending;
  unmet_deps = λ i. (g.node i).predecessor_count;
  completed_count = 0;
  fatal = none;
  skipped_jobs = [];
  draining_skips = false;
  inline_ready = roots g g.size;
  events = [];
}

-- The loop takes each job from the worklist once, so `size` rounds are enough.
unfoldable pub run_jobs : Graph → (ℕ → JobEnv) → Run
unfolding run_loop init
run_jobs g env = run_loop g env g.size (init g)

-- What runImpl returns at its end.
unfoldable pub run_result : Run → Expected (Unit {0})
run_result r = elim (r.fatal) [ none ↦ value tt | some (e, idx) ↦ unexpected e ]
