-- ===== src/Run/Entry.antt =====
-- A run from its start: the early return, the validation of a graph whose roots are not cached, and the
-- jobs. One run at a time is assumed: kBusy and the join of orphans are left out.
use sub0pipeline.Prelude.{
  ℕ, ◌<◌, ◌≡◌, refl, ◌≢◌, Bool, true, false, Option, none, some, arith, ◌==◌, if◌then◌else◌,
}
use sub0pipeline.Types.{Expected, value, unexpected, PipelineError}
use sub0pipeline.Graph.{Graph}
use sub0pipeline.Graph.Build.{WellFormed}
use sub0pipeline.Graph.Ranks.{Acyclic}
use sub0pipeline.Validate.{validate}
use sub0pipeline.Validate.Completeness.{validate_decides}
use sub0pipeline.Invoke.{JobEnv}
use sub0pipeline.Run.{Run, run_jobs, run_result}
use sub0pipeline.Run.Completion.{NoOnDemand, Finished, run_jobs-finishes}

-- What runImpl answers, the run if it called jobs at all, and whether the roots are cached after it.
pub record Answer : Type 0 where
  pub result : Expected (Unit {0})
  pub ran : Option Run
  pub roots_cached : Bool

-- The jobs of a graph with its roots cached.
abbrev pub run_graph : Graph → (ℕ → JobEnv) → Answer
run_graph g env = record {
  result = run_result (run_jobs g env);
  ran = some (run_jobs g env);
  roots_cached = true;
}

abbrev pub if_valid : Expected (Unit {0}) → Answer → Answer
if_valid (value v) a = a
if_valid (unexpected e) a = record { result = unexpected e; ran = none; roots_cached = false }

-- runImpl
unfoldable pub run_impl : Graph → (ℕ → JobEnv) → Answer
run_impl g env =
    if g.size == 0
    then record { result = value tt; ran = none; roots_cached = g.roots_cached }
    else if g.roots_cached
    then run_graph g env
    else if_valid (validate g) (run_graph g env)

-- Roots are cached only for a graph that `validate` has accepted.
abbrev pub CachedValid : Graph → Bool → Type 0
CachedValid g cached = cached ≡ true → validate g ≡ value tt

empty-valid : (g : Graph) → WellFormed g → g.size ≡ 0 → validate g ≡ value tt
empty-valid g wf none_there =
    (validate_decides g wf).0.1 (λ i. 0, λ p s l m e. absurd (omega (arith, none_there, l)))

-- A run of a well-formed graph without on-demand jobs, whose roots are cached only if it is
-- valid: no jobs give success, a cyclic graph gives kCyclicDependency with no job called, and
-- in an acyclic graph with jobs every job finishes and the answer is that of the jobs; roots
-- are cached afterwards only if the graph is valid.
pub run_impl-answers :
    (g : Graph) (env : ℕ → JobEnv)
    → WellFormed g
    → NoOnDemand g
    → CachedValid g g.roots_cached
    → (g.size ≡ 0 → (run_impl g env).result ≡ value tt)
      × (¬ Acyclic g
          → ((run_impl g env).result ≡ unexpected PipelineError.cyclic_dependency)
            × ((run_impl g env).ran ≡ none))
      × (Acyclic g
          → g.size ≢ 0
          → (r : Run) × ((run_impl g env).ran ≡ some r)
            × ((run_impl g env).result ≡ run_result r)
            × ((i : ℕ) → i < g.size → Finished r i)
            × (r.completed_count ≡ g.size))
      × CachedValid g (run_impl g env).roots_cached
unfolding run_impl
run_impl-answers g env wf plain cached = (
  λ e. ground (arith, e),
  λ cyclic.
      let bad = (validate_decides g wf).1.1 cyclic in
      (
        ground (arith, bad, cached, empty-valid g wf),
        ground (arith, bad, cached, empty-valid g wf),
      ),
  λ acyclic some_job.
      let good = (validate_decides g wf).0.1 acyclic in
      let (all, count_eq) = run_jobs-finishes g env wf good plain in
      (
        run_jobs g env,
        ground (arith, good, some_job),
        ground (arith, good, some_job),
        all,
        count_eq,
      ),
  λ e. by_answer (validate g) refl e,
)
  where
    by_answer :
        (v : Expected (Unit {0}))
        → validate g ≡ v
        → (run_impl g env).roots_cached ≡ true
        → validate g ≡ value tt
    by_answer (value v) h e = h
    by_answer (unexpected c) h e = ground (arith, h, e, cached)
