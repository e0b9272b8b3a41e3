-- ===== src/Samples/Entry.antt =====
-- Runs from their start: the diamond and the cycle.
use sub0pipeline.Prelude.{ℕ, ◌<◌, ◌≡◌, refl, ◌≢◌, none, some, arith}
use sub0pipeline.Types.{value, unexpected, PipelineError}
use sub0pipeline.Graph.Ranks.{Acyclic}
use sub0pipeline.Validate.{validate}
use sub0pipeline.Run.{Run, run_result}
use sub0pipeline.Run.Completion.{Finished}
use sub0pipeline.Run.Entry.{run_impl, CachedValid, run_impl-answers}
use sub0pipeline.Samples.Graphs.{diamond, cycle, diamond-WellFormed}
use sub0pipeline.Samples.Runs.{failing, diamond-NoOnDemand}

-- The cycle is refused, and none of its jobs is called.
cycle_refused :
    ((run_impl cycle.0 (failing 9)).result ≡ unexpected PipelineError.cyclic_dependency)
    × ((run_impl cycle.0 (failing 9)).ran ≡ none)
unfolding run_impl cycle validate
cycle_refused = (refl, refl)

not_cached : CachedValid diamond.0 diamond.0.roots_cached
unfolding diamond
not_cached e = ground (arith, e)

run_impl-answers_example :
    (diamond.0.size ≡ 0 → (run_impl diamond.0 (failing 1)).result ≡ value tt)
    × (¬ Acyclic diamond.0
        → ((run_impl diamond.0 (failing 1)).result ≡ unexpected PipelineError.cyclic_dependency)
          × ((run_impl diamond.0 (failing 1)).ran ≡ none))
    × (Acyclic diamond.0
        → diamond.0.size ≢ 0
        → (r : Run) × ((run_impl diamond.0 (failing 1)).ran ≡ some r)
          × ((run_impl diamond.0 (failing 1)).result ≡ run_result r)
          × ((i : ℕ) → i < diamond.0.size → Finished r i)
          × (r.completed_count ≡ diamond.0.size))
    × CachedValid diamond.0 (run_impl diamond.0 (failing 1)).roots_cached
run_impl-answers_example =
    run_impl-answers diamond.0 (failing 1) diamond-WellFormed diamond-NoOnDemand not_cached
