-- ===== src/Graph/Edges.antt =====
-- Job::succeed, Job::precede, the Job setters and Impl::addNode keep the graph well formed.
use sub0pipeline.Prelude.{
  ℕ, ◌+◌, ◌≤◌, ◌<◌, ◌≡◌, ap, ◌≢◌, true, [], ◌∷◌, ◌++◌, some, arith, length, length-append, count,
  count-append, AllBelow, AllBelow-append, total, total_at, if◌then◌else◌, ◌==◌, inc32,
}
use sub0pipeline.Graph.{Graph, Job, count_mask, push_back, add_edge, succeed, precede, valid}
use sub0pipeline.Graph.Degrees.{degree, live_edges}
use sub0pipeline.Graph.Build.{WellFormed, all_live, degree_bound}

-- What a successful add_edge leaves in the graph.
record Linked (g : Graph) (from to : ℕ) (g' : Graph) : Type 0 where
  same_size : g'.size ≡ g.size
  list :
      (p : ℕ)
      → (g'.node p).successors
        ≡ (if from == p then (g.node p).successors ++ to ∷ [] else (g.node p).successors)
  counter :
      (i : ℕ)
      → (g'.node i).predecessor_count
        ≡ (if to == i then inc32 (g.node i).predecessor_count else (g.node i).predecessor_count)
  room : length (g.node from).successors ≢ count_mask

add_edge-Linked :
    (from to : ℕ) (g g' : Graph) → to < 65536 → add_edge from to g ≡ some g' → Linked g from to g'
unfolding add_edge push_back
add_edge-Linked from to g g' fits e = record {
  same_size = ground arith;
  list = λ p. ground arith;
  counter = λ i. ground arith;
  room = ground arith;
}

module _ (g : Graph) (from to : ℕ) (g' : Graph) (wf : WellFormed g) (from_lt : from < g.size)
    (to_lt : to < g.size) (linked : Linked g from to g') where
  open linked use {same_size, list, counter, room}

  edges_after :
      (p i : ℕ)
      → live_edges g' all_live i p
        ≡ live_edges g all_live i p + (if from == p then (if i == to then 1 else 0) else 0)
  edges_after p i =
      ground (arith, ap (count i) (list p), count-append i (g.node p).successors (to ∷ []))

  degree_after : (i : ℕ) → degree g' all_live i ≡ degree g all_live i + (if i == to then 1 else 0)
  degree_after i =
      let at =
        total_at g.size from (live_edges g all_live i) (live_edges g' all_live i) from_lt
          (λ p l ne. ground (arith, edges_after p i)) in
      ground (
        arith,
        at,
        edges_after from i,
        ap (λ (n : ℕ). total n (live_edges g' all_live i)) same_size,
      )

  Linked-WellFormed : WellFormed g'
  Linked-WellFormed = record {
    fits = omega (arith, wf.fits, same_size);
    targets = λ p l. rw (list p, same_size) (target p (omega (arith, same_size)));
    short = λ p l. rw (list p) (short p (omega (arith, same_size)));
    counted = λ i l. ground (
      arith,
      counter i,
      degree_after i,
      wf.counted i (omega (arith, same_size)),
      degree_bound g all_live i wf,
    );
  }
    where
      target :
          (p : ℕ)
          → p < g.size
          → AllBelow g.size
              (if from == p then (g.node p).successors ++ to ∷ [] else (g.node p).successors)
      target p l = ground (
        arith,
        wf.targets p l,
        AllBelow-append g.size (g.node p).successors (to ∷ []) (wf.targets p l) (to_lt, tt),
      )

      short :
          (p : ℕ)
          → p < g.size
          → length (if from == p then (g.node p).successors ++ to ∷ [] else (g.node p).successors)
            ≤ count_mask
      short p l = ground (arith, wf.short p l, room, length-append (g.node p).successors (to ∷ []))

abbrev pub Named : Job → Graph → Type 0
Named j g = (j.anchored ≡ true) × (j.idx < g.size)

-- A call of precede between two jobs of a well-formed graph that does not throw keeps the graph well
-- formed: it adds one edge from the job to the other, and no edge else.
pub precede-WellFormed :
    (self other : Job) (g g' : Graph)
    → WellFormed g
    → Named self g
    → Named other g
    → precede self other g ≡ some g'
    → WellFormed g'
      × ((p i : ℕ)
          → count i (g'.node p).successors
            ≡ count i (g.node p).successors
              + (if self.idx == p then (if i == other.idx then 1 else 0) else 0))
unfolding precede valid
precede-WellFormed self other g g' wf s o e =
    let fits = wf.fits in
    let linked = add_edge-Linked self.idx other.idx g g' (omega arith) (ground arith) in
    (
      Linked-WellFormed g self.idx other.idx g' wf s.1 o.1 linked,
      λ p i. edges_after g self.idx other.idx g' wf s.1 o.1 linked p i,
    )

pub succeed-precede :
    (self other : Job) (g : Graph)
    → self.anchored ≡ true
    → other.anchored ≡ true
    → succeed self other g ≡ precede other self g
unfolding succeed precede valid
succeed-precede self other g s o = ground arith
