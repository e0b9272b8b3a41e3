-- ===== src/Worker/Pipeline.antt =====
-- The pipeline that WorkerHost::run of src/remote/worker_host.cpp builds from a request, its run on a
-- SequentialExecutor, and the reply that it makes of it. What the bodies of the jobs leave behind, and
-- what they answer, is an argument.
use sub0pipeline.Prelude.{ℕ, ◌+◌, Bool, true, false, Option, none, some, List, [], ◌∷◌}
use sub0pipeline.Types.{JobStatus, PipelineError, Expected, unexpected}
use sub0pipeline.Graph.{Graph, Job, Flags, add_node, succeed, name, optional}
use sub0pipeline.Graph.Reachable.{empty_graph}
use sub0pipeline.Invoke.{JobEnv}
use sub0pipeline.Run.Entry.{Answer, run_impl}
use sub0pipeline.Wire.{Payload, JobSpec, WireEdge, SubGraphRequest, SubGraphReply}
use sub0pipeline.Worker.Replies.{Finished, Around, results_of}

-- "job_"
abbrev pub job_prefix : List ℕ
job_prefix = 106 ∷ 111 ∷ 98 ∷ 95 ∷ []

-- A callable that takes a stop_token.
abbrev pub cancellable_flags : Flags
cancellable_flags = record { on_demand = false; cancellable = true; deferred = false }

-- handles[i]: emplace gives the jobs of a new pipeline the indices from 0.
abbrev pub handle_at : ℕ → Job
handle_at i = record { idx = i; anchored = true }

-- One round of the first loop; `none` is an exception.
unfoldable pub emplace_job : (ℕ → List ℕ) → JobSpec → Graph → Option Graph
unfolding add_node name optional
emplace_job to_string spec g = elim (add_node to_string job_prefix cancellable_flags g) [
  | none ↦ none
  | some (g', i) ↦ some (optional true (handle_at i) (name spec.kind.name (handle_at i) g'))
]

unfoldable pub emplace_jobs : (ℕ → List ℕ) → List JobSpec → Graph → Option Graph
unfolding emplace_job
emplace_jobs to_string [] g = some g
emplace_jobs to_string (spec ∷ specs) g = elim (emplace_job to_string spec g) [
  | none ↦ none
  | some g' ↦ emplace_jobs to_string specs g'
]

-- The loop over the edges.
unfoldable pub link_edges : List WireEdge → Graph → Option Graph
unfolding succeed
link_edges [] g = some g
link_edges (e ∷ es) g = elim (succeed (handle_at e.to) (handle_at e.from) g) [
  | none ↦ none
  | some g' ↦ link_edges es g'
]

unfoldable pub build : (ℕ → List ℕ) → SubGraphRequest → Option Graph
unfolding emplace_jobs link_edges
build to_string req = elim (emplace_jobs to_string req.jobs empty_graph) [
  | none ↦ none
  | some g ↦ link_edges req.edges g
]

-- What the body of a job left: `skipped`, `codes`, `errors` and `outputs`.
pub record Left : Type 0 where
  pub skipped : Bool
  pub code : ℕ
  pub message : List ℕ
  pub output : Payload

-- The byte of a JobStatus.
abbrev pub status_byte : JobStatus → ℕ
status_byte JobStatus.pending = 0
status_byte JobStatus.ready = 1
status_byte JobStatus.running = 2
status_byte JobStatus.done = 3
status_byte JobStatus.failed = 4
status_byte JobStatus.skipped = 5
status_byte JobStatus.timed_out = 6
status_byte JobStatus.cancelled = 7
status_byte JobStatus.awaiting = 8

-- pipe.status(handles[i]) after the run.
abbrev pub status_after : Answer → ℕ → JobStatus
status_after a i = elim (a.ran) [ none ↦ JobStatus.pending | some r ↦ r.status i ]

abbrev pub is_cyclic : Expected (Unit {0}) → Bool
is_cyclic (unexpected PipelineError.cyclic_dependency) = true
is_cyclic _ = false

-- The jobs from index `i` on.
unfoldable pub finished_from : (ℕ → JobStatus) → (ℕ → Left) → ℕ → List JobSpec → List Finished
finished_from status left i [] = []
finished_from status left i (spec ∷ specs) =
    record {
      skipped = (left i).skipped;
      status = status_byte (status i);
      code = (left i).code;
      message = (left i).message;
      output = (left i).output;
      exported = spec.exported;
    }
    ∷ finished_from status left (i + 1) specs

-- WorkerHost::run without an executor in its options, up to the frame: the results and their
-- overrides. `none` is an exception, which the runner does not catch.
unfoldable pub run_work :
    (ℕ → List ℕ)
    → SubGraphRequest
    → (ℕ → JobEnv)
    → (ℕ → Left)
    → Around
    → Option (SubGraphReply × List (Option Payload))
unfolding build run_impl finished_from results_of
run_work to_string req env left around = elim (build to_string req) [
  | none ↦ none
  | some g ↦
      let answer = run_impl g env in
      some (
        results_of (is_cyclic answer.result) around 0
          (finished_from (status_after answer) left 0 req.jobs))
]
