-- ===== src/Graph/Ranks.antt =====
-- Acyclic graphs, by a rank that grows along every edge.
use sub0pipeline.Prelude.{ℕ, zero, suc, ◌<◌, arith}
use sub0pipeline.Graph.{Graph}
use sub0pipeline.Graph.Degrees.{Edge}

abbrev pub IsRank : Graph → (ℕ → ℕ) → Type 0
IsRank g rank = (p s : ℕ) → p < g.size → s < g.size → Edge g p s → rank p < rank s

abbrev pub Acyclic : Graph → Type 0
Acyclic g = (rank : ℕ → ℕ) × IsRank g rank

-- No job has a property that passes to one of its predecessors, if the graph is acyclic.
module _ (g : Graph) (rank : ℕ → ℕ) (ranked : IsRank g rank) (P : ℕ → Type 0)
    (pass : (i : ℕ) → i < g.size → P i → (p : ℕ) × (p < g.size) × Edge g p i × P p) where
  below : (k i : ℕ) → rank i < k → i < g.size → ¬ P i
  below zero i h lt held = absurd (omega arith)
  below (suc k) i h lt held =
      let (p, plt, e, pheld) = pass i lt held in
      below k p (omega (arith, ranked p i plt lt e)) plt pheld

  pub descent : (i : ℕ) → i < g.size → ¬ P i
  descent i lt = below (suc (rank i)) i (omega arith) lt
