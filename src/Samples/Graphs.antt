-- ===== src/Samples/Graphs.antt =====
-- A diamond of four jobs, a cycle of two, and what `validate` says of them.
use sub0pipeline.Prelude.{ℕ, ◌+◌, ◌≡◌, refl, true, List, [], ◌∷◌, arith, ◌↔◌}
use sub0pipeline.Types.{value, unexpected, PipelineError}
use sub0pipeline.Graph.{Graph, Job, plain_flags, add_node, precede, succeed}
use sub0pipeline.Graph.Build.{WellFormed}
use sub0pipeline.Graph.Ranks.{Acyclic}
use sub0pipeline.Graph.Reachable.{
  Built, new, added, preceded, succeeded, configured, set_optional, apply_setter, empty_graph,
  Built-WellFormed,
}
use sub0pipeline.Validate.{validate}
use sub0pipeline.Validate.Completeness.{validate_decides}

-- std::to_string on one digit.
abbrev pub digit : ℕ → List ℕ
digit n = (48 + n) ∷ []

abbrev pub Building : Type 0
Building = (g : Graph) × Built digit g

abbrev pub job : ℕ → Job
job i = record { idx = i; anchored = true }

unfoldable pub four_jobs : Building
unfolding add_node
four_jobs =
    let start : Built digit empty_graph = new in
    let a = added [] plain_flags 0 start refl in
    let b = added [] plain_flags 1 a refl in
    let c = added [] plain_flags 2 b refl in (_, added [] plain_flags 3 c refl)

-- 0 → 1, 0 → 2, 1 → 3, 2 → 3, and job 2 is optional.
unfoldable pub diamond : Building
unfolding four_jobs precede succeed apply_setter
diamond =
    let a = preceded (job 0) (job 1) four_jobs.1 (refl, omega arith) (refl, omega arith) refl in
    let b = preceded (job 0) (job 2) a (refl, omega arith) (refl, omega arith) refl in
    let c = succeeded (job 3) (job 1) b (refl, omega arith) (refl, omega arith) refl in
    let d = succeeded (job 3) (job 2) c (refl, omega arith) (refl, omega arith) refl in
    (_, configured (set_optional true) (job 2) d)

unfoldable pub cycle : Building
unfolding four_jobs precede
cycle =
    let a = preceded (job 0) (job 1) four_jobs.1 (refl, omega arith) (refl, omega arith) refl in
    (_, preceded (job 1) (job 0) a (refl, omega arith) (refl, omega arith) refl)

pub diamond-WellFormed : WellFormed diamond.0
diamond-WellFormed = Built-WellFormed digit diamond.1

pub validate-diamond : validate diamond.0 ≡ value tt
unfolding validate diamond
validate-diamond = refl

validate-cycle : validate cycle.0 ≡ unexpected PipelineError.cyclic_dependency
unfolding validate cycle
validate-cycle = refl

Built-WellFormed_example : WellFormed diamond.0
Built-WellFormed_example = Built-WellFormed digit diamond.1

validate_decides_example :
    ((validate diamond.0 ≡ value tt) ↔ Acyclic diamond.0)
    × ((validate diamond.0 ≡ unexpected PipelineError.cyclic_dependency) ↔ ¬ Acyclic diamond.0)
validate_decides_example = validate_decides diamond.0 diamond-WellFormed
