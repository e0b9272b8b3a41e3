-- ===== src/Worker/Answers.antt =====
-- The reply of WorkerHost::run of src/remote/worker_host.cpp, from the request to the results.
use mathlib.Core.Path.{subst}
use sub0pipeline.Prelude.{
  ℕ, suc, ◌+◌, ◌≤◌, sym, ◌⊎◌, inl, inr, ◌↔◌, Option-cases, ◌<◌, ◌≡◌, ap, refl, Bool, true, false,
  Option, none, some, List, [], ◌∷◌, arith, length, Bool-cases, ◌∙◌, ◌==◌,
}
use sub0pipeline.Types.{JobStatus, PipelineError, Expected, value, unexpected, status_of}
use sub0pipeline.Graph.{Graph, count_mask}
use sub0pipeline.Graph.Build.{WellFormed}
use sub0pipeline.Graph.Ranks.{Acyclic}
use sub0pipeline.Graph.Reachable.{Built-WellFormed}
use sub0pipeline.Validate.Completeness.{validate_decides}
use sub0pipeline.Invoke.{JobEnv}
use sub0pipeline.Run.{run_jobs, run_result}
use sub0pipeline.Run.Base.{terminal}
use sub0pipeline.Run.Completion.{NoOnDemand, run_jobs-result}
use sub0pipeline.Run.Entry.{run_impl, run_impl-answers}
use sub0pipeline.Wire.{Payload, JobResult, JobSpec, SubGraphRequest, SubGraphReply}
use sub0pipeline.Wire.Decode.{decode_request}
use sub0pipeline.Wire.Entries.{EdgesOk}
use sub0pipeline.Wire.Accepted.{decode_request_bounds}
use sub0pipeline.Channel.{error_byte}
use sub0pipeline.Worker.Replies.{
  Finished, Around, plain_result, stored_result, result_of, results_of,
}
use sub0pipeline.Worker.Pipeline.{
  Left, status_byte, status_after, is_cyclic, finished_from, build, run_work,
}
use sub0pipeline.Worker.Emplacing.{Plain}
use sub0pipeline.Worker.Building.{edges_from, build_decides}

-- Every result of a reply.
abbrev pub Each : (JobResult → Type 0) → SubGraphReply → Type 0
Each p [] = Unit {0}
Each p (r ∷ rs) = p r × Each p rs

-- kDone, kFailed, kSkipped, kTimedOut or kCancelled.
abbrev pub IsOver : JobResult → Type 0
IsOver r = (3 ≤ r.status) × (r.status ≤ 7)

abbrev pub IsCycle : JobResult → Type 0
IsCycle r = (r.status ≡ 4) × (r.error ≡ error_byte PipelineError.cyclic_dependency)

byte-over : (st : JobStatus) → terminal st ≡ true → (3 ≤ status_byte st) × (status_byte st ≤ 7)
byte-over st over = (ground (arith, over), ground (arith, over))

result_of-IsCycle : (a : Around) (i : ℕ) (f : Finished) → IsCycle (result_of true a i f).0
unfolding result_of plain_result
result_of-IsCycle a i f = (ground arith, ground arith)

result_of-IsOver :
    (a : Around) (i : ℕ) (f : Finished)
    → 3 ≤ f.status
    → f.status ≤ 7
    → IsOver (result_of false a i f).0
unfolding result_of plain_result stored_result
result_of-IsOver a i f low high = (ground (arith, low, high), ground (arith, low, high))

results_of-IsCycle :
    (a : Around) (i : ℕ) (fs : List Finished) → Each IsCycle (results_of true a i fs).0
unfolding results_of
results_of-IsCycle a i [] = tt
results_of-IsCycle a i (f ∷ fs) = (result_of-IsCycle a i f, results_of-IsCycle a (i + 1) fs)

results_of-IsOver :
    (a : Around) (status : ℕ → JobStatus) (left : ℕ → Left) (i k : ℕ) (specs : List JobSpec)
    → ((j : ℕ) → j < i + length specs → terminal (status j) ≡ true)
    → Each IsOver (results_of false a k (finished_from status left i specs)).0
unfolding results_of finished_from
results_of-IsOver a status left i k [] over = tt
results_of-IsOver a status left i k (spec ∷ specs) over =
    let (low, high) = byte-over (status i) (over i (omega arith)) in
    let f : Finished = record {
      skipped = (left i).skipped;
      status = status_byte (status i);
      code = (left i).code;
      message = (left i).message;
      output = (left i).output;
      exported = spec.exported;
    } in
    (
      result_of-IsOver a k f low high,
      results_of-IsOver a status left (i + 1) (k + 1) specs (λ j l. over j (omega (arith, l))),
    )

length-results_of :
    (cyclic : Bool) (a : Around) (status : ℕ → JobStatus) (left : ℕ → Left) (i k : ℕ)
    (specs : List JobSpec)
    → length (results_of cyclic a k (finished_from status left i specs)).0 ≡ length specs
unfolding results_of finished_from
length-results_of cyclic a status left i k [] = refl
length-results_of cyclic a status left i k (spec ∷ specs) =
    ap suc (length-results_of cyclic a status left (i + 1) (k + 1) specs)

module _ (ts : ℕ → List ℕ) (g : Graph) (env : ℕ → JobEnv) (plain : Plain ts g) where
  let_on : NoOnDemand g
  let_on i l = plain.ordinary i

  -- A job that fails with kCyclicDependency does not make the run look cyclic.
  run_result-Acyclic : Acyclic g → is_cyclic (run_result (run_jobs g env)) ≡ false
  run_result-Acyclic acyclic = by_answer (run_result (run_jobs g env)) refl
    where
      wf : WellFormed g
      wf = Built-WellFormed ts plain.built

      by_answer : (v : Expected (Unit {0})) → run_result (run_jobs g env) ≡ v → is_cyclic v ≡ false
      by_answer (value v) h = refl
      by_answer (unexpected PipelineError.cyclic_dependency) h =
          let (i, l, _, status, blocks) =
            (run_jobs-result g env wf ((validate_decides g wf).0.1 acyclic) let_on).1
              PipelineError.cyclic_dependency h in
          absurd (unfold status_of in ground (arith, status, blocks, plain.optional i l))
      by_answer (unexpected PipelineError.timeout) h = refl
      by_answer (unexpected PipelineError.job_failed) h = refl
      by_answer (unexpected PipelineError.unknown_job) h = refl
      by_answer (unexpected PipelineError.not_armed) h = refl
      by_answer (unexpected PipelineError.not_on_demand) h = refl
      by_answer (unexpected PipelineError.cancelled) h = refl
      by_answer (unexpected PipelineError.busy) h = refl
      by_answer (unexpected PipelineError.deadline_unavailable) h = refl
      by_answer (unexpected PipelineError.unavailable) h = refl

  run_impl-Acyclic :
      Acyclic g
      → (is_cyclic (run_impl g env).result ≡ false)
        × ((i : ℕ) → i < g.size → terminal (status_after (run_impl g env) i) ≡ true)
  run_impl-Acyclic acyclic =
      let wf = Built-WellFormed ts plain.built in
      let (none_there, _, some_there, _) =
        run_impl-answers g env wf let_on (λ e. ground (arith, e, plain.fresh)) in
      let good = (validate_decides g wf).0.1 acyclic in
      let known = run_result-Acyclic acyclic in
      elim (Bool-cases (g.size == 0)) [
        | inl z ↦
            (ap is_cyclic (none_there (ground (arith, z))), λ i l. absurd (ground (arith, z, l)))
        | inr more ↦
            let (r, ran, _, over, _) = some_there acyclic (ground (arith, more)) in
            (
              unfold run_impl in ground (arith, good, known, more),
              λ i l. ground (arith, ran, (over i l).over),
            )
      ]

  run_impl-cyclic : ¬ Acyclic g → is_cyclic (run_impl g env).result ≡ true
  run_impl-cyclic cyclic =
      let wf = Built-WellFormed ts plain.built in
      ap is_cyclic
        ((run_impl-answers g env wf let_on (λ e. ground (arith, e, plain.fresh))).1 cyclic).0

-- A run of a request whose edges join two different jobs of it.
run_work-answers :
    (ts : ℕ → List ℕ) (req : SubGraphRequest) (env : ℕ → JobEnv) (left : ℕ → Left) (around : Around)
    → EdgesOk (length req.jobs) req.edges
    → ((run_work ts req env left around ≡ none)
        ↔ ((65536 < length req.jobs) ⊎ ((p : ℕ) × (count_mask < edges_from p req.edges))))
      × ((reply : SubGraphReply) (os : List (Option Payload))
          → run_work ts req env left around ≡ some (reply, os)
          → (length reply ≡ length req.jobs)
            × ((g : Graph) × (build ts req ≡ some g)
                × (Acyclic g → Each IsOver reply)
                × (¬ Acyclic g → Each IsCycle reply)))
unfolding run_work
run_work-answers ts req env left around ok =
    let (decides, graph) = build_decides ts req ok in
    elim (Option-cases (build ts req)) [
      | inl none_built ↦ (
        (λ _. decides.0 none_built, λ h. ground (arith, none_built)),
        λ reply os h. absurd (ground (arith, none_built, h)),
      )
      | inr (g, built) ↦
          let (plain, size, _) = graph g built in
          let status = status_after (run_impl g env) in
          let from : Bool → SubGraphReply =
            λ cyclic. (results_of cyclic around 0 (finished_from status left 0 req.jobs)).0 in
          (
            (
              λ h. absurd (ground (arith, built, h)),
              λ h. absurd (ground (arith, built, decides.1 h)),
            ),
            λ reply os h.
                let same : from (is_cyclic (run_impl g env).result) ≡ reply =
                  ground (arith, built, h) in
                (
                  subst (λ rs. length rs ≡ length req.jobs) same
                      (length-results_of (is_cyclic (run_impl g env).result) around status left 0 0
                        req.jobs),
                  (
                    g,
                    built,
                    λ acyclic.
                        let (known, over) = run_impl-Acyclic ts g env plain acyclic in
                        subst (Each IsOver) (ap from (sym known) ∙ same) (
                          results_of-IsOver around status left 0 0 req.jobs
                            (λ j l. over j (omega (arith, l, size)))),
                    λ cyclic.
                        subst (Each IsCycle)
                          (ap from (sym (run_impl-cyclic ts g env plain cyclic)) ∙ same)
                          (results_of-IsCycle around 0 (finished_from status left 0 req.jobs)),
                  ),
                ),
          )
    ]

-- For a request that decodeRequest reads from a frame, whatever its bytes, a worker's run on a
-- SequentialExecutor throws exactly if more than 32767 of the edges come from one job;
-- otherwise its reply has one result for each job, each of them done, failed, skipped, timed
-- out or cancelled if the request's graph is acyclic, whatever errors the jobs answer, and each
-- of them kFailed with kCyclicDependency if it is not.
pub run_work-decode_request :
    (ts : ℕ → List ℕ) (frame : List ℕ) (id : ℕ) (req : SubGraphRequest) (env : ℕ → JobEnv)
    (left : ℕ → Left) (around : Around)
    → decode_request frame ≡ some (id, req)
    → ((run_work ts req env left around ≡ none) ↔ ((p : ℕ) × (count_mask < edges_from p req.edges)))
      × ((reply : SubGraphReply) (os : List (Option Payload))
          → run_work ts req env left around ≡ some (reply, os)
          → (length reply ≡ length req.jobs)
            × ((g : Graph) × (build ts req ≡ some g)
                × (Acyclic g → Each IsOver reply)
                × (¬ Acyclic g → Each IsCycle reply)))
run_work-decode_request ts frame id req env left around decoded =
    let (few, ok) = decode_request_bounds frame id req decoded in
    let (throws, answers) = run_work-answers ts req env left around ok in
    (
      (
        λ h. elim (throws.0 h) [ inl many ↦ absurd (omega (arith, many, few)) | inr full ↦ full ],
        λ full. throws.1 (inr full),
      ),
      answers,
    )
