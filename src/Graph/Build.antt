-- ===== src/Graph/Build.antt =====
-- Building keeps the graph well formed.
use sub0pipeline.Prelude.{
  ℕ, ◌≤◌, ◌<◌, ◌≡◌, Bool, true, arith, length, count-le-length, AllBelow, total-le-mul,
}
use sub0pipeline.Graph.{Graph, count_mask}
use sub0pipeline.Graph.Degrees.{degree, live_edges}

abbrev pub all_live : ℕ → Bool
all_live _ = true

-- What the build phase promises: indices in range, the limits of the packed successor lists, and
-- each node's count equal to the number of edges that lead to it.
pub record WellFormed (g : Graph) : Type 0 where
  pub fits : g.size ≤ 65536
  pub targets : (p : ℕ) → p < g.size → AllBelow g.size (g.node p).successors
  pub short : (p : ℕ) → p < g.size → length (g.node p).successors ≤ count_mask
  pub counted : (i : ℕ) → i < g.size → (g.node i).predecessor_count ≡ degree g all_live i

-- 65536 jobs with 32767 successors each: no 32-bit dependency count can overflow.
abbrev pub most_edges : ℕ
most_edges = 2147418112

pub degree_bound :
    (g : Graph) (live : ℕ → Bool) (i : ℕ) → WellFormed g → degree g live i ≤ most_edges
degree_bound g live i wf =
    let most = total-le-mul g.size 32767 (live_edges g live i) (λ p l. each p (wf.short p l)) in
    let fits = wf.fits in omega arith
  where
    each : (p : ℕ) → length (g.node p).successors ≤ count_mask → live_edges g live i p ≤ 32767
    each p short = ground (arith, count-le-length i (g.node p).successors)
