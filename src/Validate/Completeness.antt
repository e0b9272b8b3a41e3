-- ===== src/Validate/Completeness.antt =====
-- `validate` accepts every acyclic graph.
use sub0pipeline.Prelude.{
  ℕ, ◌<◌, ◌≡◌, ◌∙◌, ap, ◌↔◌, ◌⊎◌, inl, inr, true, false, [], arith, ◌==◌, length, count, total_one,
  Bool-cases,
}
use sub0pipeline.Types.{value, unexpected, PipelineError}
use sub0pipeline.Graph.{Graph}
use sub0pipeline.Graph.Degrees.{Edge, degree_pos}
use sub0pipeline.Graph.Build.{WellFormed}
use sub0pipeline.Graph.Ranks.{Acyclic, descent}
use sub0pipeline.Validate.{Kahn, visit, start, validate}
use sub0pipeline.Validate.Invariant.{closed}
use sub0pipeline.Validate.Soundness.{Inv, final-Inv, final-ready, validate-Acyclic}

-- With the queue empty, an unvisited job has an unvisited predecessor.
stuck :
    (g : Graph) (k : Kahn) (inv : Inv g k)
    → k.ready ≡ []
    → (i : ℕ) → i < g.size
    → inv.live i ≡ true
    → (p : ℕ) × (p < g.size) × Edge g p i × (inv.live p ≡ true)
stuck g k inv e i lt live =
    let none_queued : count i k.ready ≡ 0 = ap (count i) e in
    let (p, l, up, edge) =
      degree_pos g inv.live i
        (ground (arith, inv.counts.queued i lt, inv.counts.lowered i lt, none_queued)) in
    (p, l, edge, up)

pub validate-ok : (g : Graph) → WellFormed g → Acyclic g → validate g ≡ value tt
unfolding validate
validate-ok g wf (rank, ranked) = ground (arith, full)
  where
    inv : Inv g (visit g g.size (start g))
    inv = final-Inv g wf

    none_live : (i : ℕ) → i < g.size → ¬ (inv.live i ≡ true)
    none_live =
        descent g rank ranked (λ i. inv.live i ≡ true)
          (λ i lt live. stuck g _ inv (final-ready g wf) i lt live)

    shut : (i : ℕ) → ¬ (inv.live i ≡ true) → closed (inv.live i) ≡ 1
    shut i h = ground (arith, h)

    full : length (visit g g.size (start g)).visited ≡ g.size
    full = inv.seen ∙ total_one g.size (λ i. closed (inv.live i)) (λ i l. shut i (none_live i l))

-- For a well-formed graph validate answers success exactly if the graph is acyclic and
-- kCyclicDependency exactly if it is not.
pub validate_decides :
    (g : Graph)
    → WellFormed g
    → ((validate g ≡ value tt) ↔ Acyclic g)
      × ((validate g ≡ unexpected PipelineError.cyclic_dependency) ↔ ¬ Acyclic g)
validate_decides g wf = (
  (validate-Acyclic g wf, validate-ok g wf),
  (λ bad acyclic. cc (validate-ok g wf acyclic), λ cyclic. rejected cyclic (Bool-cases _)),
)
  where
    rejected :
        ¬ Acyclic g
        → ((length (visit g g.size (start g)).visited == g.size) ≡ true)
          ⊎ ((length (visit g g.size (start g)).visited == g.size) ≡ false)
        → validate g ≡ unexpected PipelineError.cyclic_dependency
    rejected cyclic (inl e) = absurd (cyclic (validate-Acyclic g wf (unfold validate in rw e)))
    rejected cyclic (inr e) = unfold validate in rw e
