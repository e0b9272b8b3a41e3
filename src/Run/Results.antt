-- ===== src/Run/Results.antt =====
-- The statuses of an inline run are those of the calls of its jobs.
use sub0pipeline.Prelude.{
  ℕ, zero, suc, ◌<◌, ◌≡◌, refl, ◌∙◌, ap, Bool, true, Option, none, some, List, [], ◌∷◌, arith, inl,
  inr, Bool-cases,
}
use sub0pipeline.Types.{
  JobStatus, Expected, value, unexpected, PipelineError, status_of, Expected-cases,
}
use sub0pipeline.Graph.{Graph}
use sub0pipeline.Invoke.{JobEnv, invoke}
use sub0pipeline.Run.{
  Run, enqueue_skip, enqueue_skips, report, skip_one, drain, read_skipped, skip_node, skip_nodes,
  notify_dependencies, record_failure, release_one, release, settle, propagate, finish_job, execute,
  dispatch_job, read_ready, run_loop, init, run_jobs, run_result, is_ready, has_fatal_failure,
}
use sub0pipeline.Run.Finish.{ended}
use sub0pipeline.Graph.Build.{WellFormed}
use sub0pipeline.Validate.{validate}
use sub0pipeline.Run.Log.{tolerated}
use sub0pipeline.Run.Completion.{NoOnDemand, run_jobs-result}
use sub0pipeline.Run.Fatal.{status_of-ended}

tolerated-ended :
    (optional : Bool) (st : JobStatus) → tolerated optional st ≡ true → ended st ≡ true
tolerated-ended optional st h = ground (arith, h)

-- A job that ended by its call has the status `want` gives it.
module _ (g : Graph) (want : ℕ → JobStatus) where
  abbrev Sound : Run → Type 0
  Sound r = (i : ℕ) → ended (r.status i) ≡ true → r.status i ≡ want i

  enqueue_skip-Sound : (s : ℕ) (r : Run) → Sound r → Sound (enqueue_skip s r)
  unfolding enqueue_skip
  enqueue_skip-Sound s r h i = ground (arith, h i)

  enqueue_skips-Sound : (ss : List ℕ) (r : Run) → Sound r → Sound (enqueue_skips ss r)
  unfolding enqueue_skips
  enqueue_skips-Sound [] r h = h
  enqueue_skips-Sound (s ∷ ss) r h =
      enqueue_skips-Sound ss (enqueue_skip s r) (enqueue_skip-Sound s r h)

  report-Sound : (x : ℕ) (st : JobStatus) (r : Run) → Sound r → Sound (report g x st r)
  unfolding report notify_dependencies
  report-Sound x st r h i = ground (arith, h i)

  skip_one-Sound : (x : ℕ) (rest : List ℕ) (r : Run) → Sound r → Sound (skip_one g x rest r)
  unfolding skip_one
  skip_one-Sound x rest r h =
      report-Sound x _ _
        (enqueue_skips-Sound (g.node x).successors (record r { skipped_jobs = rest }) h)

  read_skipped-Sound :
      (next : Run → Run)
      → ((r : Run) → Sound r → Sound (next r))
      → (l : List ℕ) (r : Run) → Sound r
      → Sound (read_skipped g next l r)
  unfolding read_skipped
  read_skipped-Sound next keeps [] r h = h
  read_skipped-Sound next keeps (x ∷ rest) r h =
      keeps (skip_one g x rest r) (skip_one-Sound x rest r h)

  drain-Sound : (fuel : ℕ) (r : Run) → Sound r → Sound (drain g fuel r)
  unfolding drain
  drain-Sound zero r h = h
  drain-Sound (suc fuel) r h =
      read_skipped-Sound (drain g fuel) (drain-Sound fuel) r.skipped_jobs r h

  skip_node-Sound : (s : ℕ) (r : Run) → Sound r → Sound (skip_node g s r)
  unfolding skip_node
  skip_node-Sound s r h =
      let queued = enqueue_skip-Sound s r h in
      elim (Bool-cases (enqueue_skip s r).draining_skips) [
        | inl busy ↦ rw busy queued
        | inr calm ↦
            rw calm
              (drain-Sound g.size (record (enqueue_skip s r) { draining_skips = true }) queued)
      ]

  skip_nodes-Sound : (ss : List ℕ) (r : Run) → Sound r → Sound (skip_nodes g ss r)
  unfolding skip_nodes
  skip_nodes-Sound [] r h = h
  skip_nodes-Sound (s ∷ ss) r h = skip_nodes-Sound ss (skip_node g s r) (skip_node-Sound s r h)

  release_one-Sound : (s : ℕ) (r : Run) → Sound r → Sound (release_one g s r)
  unfolding release_one
  release_one-Sound s r h i = ground (arith, h i, skip_node-Sound s r h i)

  release-Sound : (ss : List ℕ) (r : Run) → Sound r → Sound (release g ss r)
  unfolding release
  release-Sound [] r h = h
  release-Sound (s ∷ ss) r h = release-Sound ss (release_one g s r) (release_one-Sound s r h)

  settle-Sound :
      (x : ℕ) (st : JobStatus) (r : Run) → st ≡ want x → Sound r → Sound (settle g x st r)
  unfolding settle
  settle-Sound x st r good h = report-Sound x st _ (λ i. ground (arith, good, h i))

  record_failure-Sound :
      (x : ℕ) (e : PipelineError) (r : Run) → Sound r → Sound (record_failure x e r)
  unfolding record_failure
  record_failure-Sound x e r h i = ground (arith, h i)

  propagate-Sound :
      (x : ℕ) (o : Option PipelineError) (r : Run) → Sound r → Sound (propagate g x o r)
  unfolding propagate
  propagate-Sound x none r h = release-Sound (g.node x).successors r h
  propagate-Sound x (some e) r h =
      skip_nodes-Sound (g.node x).successors _ (record_failure-Sound x e _ h)

module _ (g : Graph) (env : ℕ → JobEnv) where
  abbrev result_of : ℕ → Expected (Unit {0})
  result_of i = (invoke (g.node i) (env i)).result

  abbrev called : ℕ → JobStatus
  called i = status_of (result_of i)

  dispatch_job-Sound :
      (x : ℕ) (r : Run) → Sound g called r → Sound g called (dispatch_job g env x r)
  unfolding dispatch_job execute finish_job
  dispatch_job-Sound x r h = elim (Bool-cases (has_fatal_failure r)) [
    | inl failed ↦ rw failed (skip_node-Sound g called x r h)
    | inr fine ↦ elim (Bool-cases (is_ready (r.status x))) [
      | inr other ↦ rw fine (rw other h)
      | inl now ↦ rw fine (
          rw now (
            propagate-Sound g called x _ _
              (settle-Sound g called x (called x) _ refl (λ i. ground (arith, h i)))))
    ]
  ]

  read_ready-Sound :
      (next : Run → Run)
      → ((r : Run) → Sound g called r → Sound g called (next r))
      → (l : List ℕ) (r : Run) → Sound g called r
      → Sound g called (read_ready g env next l r)
  unfolding read_ready
  read_ready-Sound next keeps [] r h = h
  read_ready-Sound next keeps (x ∷ rest) r h =
      keeps _ (dispatch_job-Sound x (record r { inline_ready = rest }) h)

  run_loop-Sound : (fuel : ℕ) (r : Run) → Sound g called r → Sound g called (run_loop g env fuel r)
  unfolding run_loop
  run_loop-Sound zero r h = h
  run_loop-Sound (suc fuel) r h =
      read_ready-Sound (run_loop g env fuel) (run_loop-Sound fuel) r.inline_ready r h

  run_jobs-Sound : Sound g called (run_jobs g env)
  unfolding run_jobs init
  run_jobs-Sound = run_loop-Sound g.size (init g) (λ i e. ground (arith, e))

-- An inline run of a well-formed graph that validate accepts and that has no on-demand jobs, in
-- which what the call of each job answers lets its successors go on, returns success, and each
-- job has the status of what its call answers.
pub run_jobs-called :
    (g : Graph) (env : ℕ → JobEnv)
    → WellFormed g
    → validate g ≡ value tt
    → NoOnDemand g
    → ((i : ℕ)
        → i < g.size
        → tolerated (g.node i).optional (status_of (invoke (g.node i) (env i)).result) ≡ true)
    → (run_result (run_jobs g env) ≡ value tt)
      × ((i : ℕ)
          → i < g.size
          → (run_jobs g env).status i ≡ status_of (invoke (g.node i) (env i)).result)
run_jobs-called g env wf ok plain good =
    let (fine, bad) = run_jobs-result g env wf ok plain in
    elim (Expected-cases (run_result (run_jobs g env))) [
      | inl (e, failed) ↦
          let (i, l, _, status, blocks) = bad e failed in
          let over = ap ended status ∙ status_of-ended (unexpected e) in
          absurd (ground (arith, run_jobs-Sound g env i over, blocks, good i l))
      | inr (v, works) ↦ (
        works,
        λ i l.
            let through = fine works i l in
            run_jobs-Sound g env i
              (tolerated-ended (g.node i).optional ((run_jobs g env).status i) through),
      )
    ]
