-- ===== src/Run/Completion.antt =====
-- An inline run of an acyclic graph finishes every job.
use sub0pipeline.Prelude.{
  ℕ, ◌+◌, ◌<◌, ◌≡◌, ap, ◌∙◌, ◌≢◌, inl, inr, true, false, [], arith, if◌then◌else◌, length, count,
  total_one, some, Bool-cases,
}
use sub0pipeline.Types.{JobStatus, value, unexpected, PipelineError, status_of}
use sub0pipeline.Graph.{Graph}
use sub0pipeline.Graph.Degrees.{Edge, degree_pos}
use sub0pipeline.Graph.Build.{WellFormed}
use sub0pipeline.Graph.Ranks.{Acyclic, descent}
use sub0pipeline.Validate.{validate}
use sub0pipeline.Validate.Soundness.{validate-Acyclic}
use sub0pipeline.Invoke.{JobEnv}
use sub0pipeline.Run.{Run, run_jobs, run_result}
use sub0pipeline.Run.Log.{starts, finishes, tolerated, IsOrdered}
use sub0pipeline.Run.Base.{Base, Listed, terminal, waiting, one_if}
use sub0pipeline.Run.Blocked.{Blocked, next, behind, after, demand}
use sub0pipeline.Run.Live.{Live, live, settled, clean}
use sub0pipeline.Run.Fatal.{Alive, going, ending, Dead}
use sub0pipeline.Run.Loop.{Over}
use sub0pipeline.Run.Start.{run_jobs-Over}

-- Every job belongs to the run: none waits for trigger().
abbrev pub NoOnDemand : Graph → Type 0
NoOnDemand g = (i : ℕ) → i < g.size → (g.node i).on_demand ≡ false

module _ (g : Graph) (r : Run) (b : ℕ) (done : r.inline_ready ≡ []) (plain : NoOnDemand g) where
  abbrev Unfinished : ℕ → Type 0
  Unfinished i = terminal (r.status i) ≡ false

  not_ready : Listed g [] r → (i : ℕ) → i < g.size → r.status i ≢ JobStatus.ready
  not_ready listed i l now = omega (arith, listed i l now, ap (count i) done)

  Live-waiting :
      Live g b [] r
      → (i : ℕ) → i < g.size
      → Unfinished i
      → (p : ℕ) × (p < g.size) × Edge g p i × Unfinished p
  Live-waiting h i l now =
      let is_pending : r.status i ≡ JobStatus.pending =
        ground (arith, not_ready h.listed i l, h.tidy i l, now) in
      let (p, pl, up, edge) =
        degree_pos g (live r) i (ground (arith, h.held i l is_pending, h.lowered i l, plain i l)) in
      (p, pl, edge, ground (arith, h.tidy p pl, up))

  Dead-waiting :
      Dead g b r
      → (i : ℕ) → i < g.size
      → Unfinished i
      → (p : ℕ) × (p < g.size) × Edge g p i × Unfinished p
  Dead-waiting d i l now =
      waits
        (d.skipping.blocked i l (ground (arith, not_ready d.listed i l, d.skipping.idle i l, now)))
    where
      waits : Blocked g [] r i → (p : ℕ) × (p < g.size) × Edge g p i × Unfinished p
      waits (next c) = absurd (omega arith)
      waits (behind y c edge) = absurd (omega (arith, ap (count y) d.empty))
      waits (after p pl edge up) = (p, pl, edge, up)
      waits (demand dm) = cc (plain i l)

  all_over : Acyclic g → Alive g b r → (i : ℕ) → i < g.size → terminal (r.status i) ≡ true
  all_over (rank, ranked) alive i l = elim (Bool-cases (terminal (r.status i))) [
    | inl over ↦ over
    | inr still ↦ absurd (descent g rank ranked Unfinished (waits alive) i l still)
  ]
    where
      waits :
          Alive g b r
          → (i : ℕ) → i < g.size
          → Unfinished i
          → (p : ℕ) × (p < g.size) × Edge g p i × Unfinished p
      waits (going h) = Live-waiting h
      waits (ending d) = Dead-waiting d

  Over-Base : Alive g b r → Base g b r × (r.skipped_jobs ≡ [])
  Over-Base (going h) = (h.base, h.empty)
  Over-Base (ending d) = (d.skipping.base, d.empty)

-- What holds of a job that an inline run has finished.
pub record Finished (r : Run) (i : ℕ) : Type 0 where
  pub over : terminal (r.status i) ≡ true
  pub finished_once : finishes i r.events ≡ 1
  pub started_once : starts i r.events ≡ (if waiting (r.status i) then 0 else 1)

-- An inline run of a well-formed graph that validate accepts and that has no on-demand jobs
-- ends with every job in a final status, finished exactly once, and called once or skipped;
-- completedCount_ is the number of jobs.
pub run_jobs-finishes :
    (g : Graph) (env : ℕ → JobEnv)
    → WellFormed g
    → validate g ≡ value tt
    → NoOnDemand g
    → ((i : ℕ) → i < g.size → Finished (run_jobs g env) i)
      × ((run_jobs g env).completed_count ≡ g.size)
run_jobs-finishes g env wf ok plain =
    let (b, alive, done) = run_jobs-Over g env wf in
    let r = run_jobs g env in
    let (base, empty) = Over-Base g r b done plain alive in
    let over = all_over g r b done plain (validate-Acyclic g wf ok) alive in
    (
      λ i l. finished_lem r i (over i l) (base.once i l) (base.calls i l) (ap (count i) empty),
      omega (
        arith,
        base.counted,
        ap length empty,
        total_one g.size (λ i. one_if (terminal (r.status i))) (λ i l. ap one_if (over i l)),
      ),
    )
  where
    finished_lem :
        (r : Run) (i : ℕ)
        → terminal (r.status i) ≡ true
        → finishes i r.events + count i r.skipped_jobs ≡ one_if (terminal (r.status i))
        → starts i r.events + one_if (waiting (r.status i)) ≡ 1
        → count i r.skipped_jobs ≡ 0
        → Finished r i
    finished_lem r i over once calls gone = record {
      over = over;
      finished_once = ground arith;
      started_once = ground arith;
    }

-- In every inline run of a well-formed graph a job starts only after all its predecessors have
-- finished with a result that lets it go on, at most once, and not after a reported failure.
pub run_jobs-IsOrdered :
    (g : Graph) (env : ℕ → JobEnv) → WellFormed g → IsOrdered g (run_jobs g env).events
run_jobs-IsOrdered g env wf = ordered (run_jobs-Over g env wf)
  where
    ordered : Over g (run_jobs g env) → IsOrdered g (run_jobs g env).events
    ordered (b, going h, done) = h.base.ordered
    ordered (b, ending d, done) = d.skipping.base.ordered

-- The answer of an inline run of a well-formed graph that validate accepts and that has no on-
-- demand jobs: success means that no job was skipped or failed in a way that counts, an error
-- is that of the named job.
pub run_jobs-result :
    (g : Graph) (env : ℕ → JobEnv)
    → WellFormed g
    → validate g ≡ value tt
    → NoOnDemand g
    → (run_result (run_jobs g env) ≡ value tt
        → (i : ℕ) → i < g.size
        → tolerated (g.node i).optional ((run_jobs g env).status i) ≡ true)
      × ((e : PipelineError)
          → run_result (run_jobs g env) ≡ unexpected e
          → (i : ℕ) × (i < g.size)
            × ((run_jobs g env).fatal ≡ some (e, i))
            × ((run_jobs g env).status i ≡ status_of (unexpected e))
            × (tolerated (g.node i).optional ((run_jobs g env).status i) ≡ false))
unfolding run_result
run_jobs-result g env wf ok plain = answer (run_jobs g env) (run_jobs-Over g env wf)
  where
    answer :
        (r : Run)
        → Over g r
        → (run_result r ≡ value tt
            → (i : ℕ) → i < g.size
            → tolerated (g.node i).optional (r.status i) ≡ true)
          × ((e : PipelineError)
              → run_result r ≡ unexpected e
              → (i : ℕ) × (i < g.size)
                × (r.fatal ≡ some (e, i))
                × (r.status i ≡ status_of (unexpected e))
                × (tolerated (g.node i).optional (r.status i) ≡ false))
    answer r (b, going h, done) = (
      λ _ i l. h.fine i l (
          settled_lem r i (h.tidy i l)
            (all_over g r b done plain (validate-Acyclic g wf ok) (going h) i l)),
      λ e wrong. ground (arith, h.unfailed, wrong),
    )
      where
        settled_lem :
            (r : Run) (i : ℕ)
            → clean (r.status i) ≡ true
            → terminal (r.status i) ≡ true
            → settled (r.status i) ≡ true
        settled_lem r i tidy over = ground arith
    answer r (b, ending d, done) = (
      λ wrong i l. ground (arith, d.failing, wrong),
      λ e found.
          let same : d.cause.error ≡ e = ground (arith, d.cause.named, found) in
          (
            d.cause.job,
            d.cause.inside,
            d.cause.named ∙ ap (λ c. some (c, d.cause.job)) same,
            d.cause.fits ∙ ap (λ c. status_of (unexpected c)) same,
            d.cause.bad,
          ),
    )
