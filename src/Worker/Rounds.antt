-- ===== src/Worker/Rounds.antt =====
-- The statuses that the kinds of a request's jobs give them, as a definition of its own beside
-- WorkerHost::run of src/remote/worker_host.cpp.
use sub0pipeline.Prelude.{
  ℕ, zero, suc, ◌<◌, ◌≡◌, refl, Bool, false, not, ◌&&◌, ◌||◌, Option, List, [], ◌∷◌, ◌==◌,
  if◌then◌else◌, length, arith, count,
}
use sub0pipeline.Types.{Expected, status_of}
use sub0pipeline.Graph.{Graph}
use sub0pipeline.Graph.Ranks.{IsRank}
use sub0pipeline.Wire.{WireEdge, SubGraphRequest}
use sub0pipeline.Wire.Entries.{EdgesOk, edge_cons}
use sub0pipeline.Worker.Pipeline.{status_byte}
use sub0pipeline.Worker.Building.{edges_between}
use sub0pipeline.Worker.Bodies.{kind_answer}

-- Some predecessor of `i` is not done.
abbrev pub held_back : (ℕ → ℕ) → List WireEdge → ℕ → Bool
held_back f [] i = false
held_back f (e ∷ es) i = ((e.to == i) && not (f e.from == 3)) || held_back f es i

-- The status of a job by those of its predecessors and the answer of its kind.
abbrev pub outcome : (ℕ → ℕ) → List WireEdge → (ℕ → Option (Expected (Unit {0}))) → ℕ → ℕ
outcome f es kinds i =
    if held_back f es i then 5 else status_byte (status_of (kind_answer (kinds i)))

pub held_back_ext :
    (f f' : ℕ → ℕ) (es : List WireEdge) (i : ℕ)
    → ((p : ℕ) → 0 < edges_between p i es → f p ≡ f' p)
    → held_back f es i ≡ held_back f' es i
held_back_ext f f' [] i same = refl
held_back_ext f f' (e ∷ es) i same =
    let rest = held_back_ext f f' es i (λ p more. same p (omega (arith, more))) in
    ground (arith, rest, same e.from)

pub edges_between_lt :
    (n : ℕ) (es : List WireEdge) (p i : ℕ) → EdgesOk n es → 0 < edges_between p i es → p < n
edges_between_lt n [] p i ok more = absurd (omega (arith, more))
edges_between_lt n (e ∷ es) p i (edge_cons fit ok) more =
    ground (arith, fit, more, edges_between_lt n es p i ok)

-- The statuses by rounds: the jobs of rank below `k` have theirs after `k` rounds.
abbrev pub rounds : List WireEdge → (ℕ → Option (Expected (Unit {0}))) → ℕ → ℕ → ℕ
rounds es kinds zero i = 5
rounds es kinds (suc k) i = outcome (rounds es kinds k) es kinds i

module _ (req : SubGraphRequest) (g : Graph) (size : g.size ≡ length req.jobs)
    (edges : (p i : ℕ) → count i (g.node p).successors ≡ edges_between p i req.edges)
    (ends : EdgesOk (length req.jobs) req.edges) (rank : ℕ → ℕ) (ranked : IsRank g rank)
    (kinds : ℕ → Option (Expected (Unit {0}))) where
  earlier :
      (p i : ℕ)
      → i < length req.jobs
      → 0 < edges_between p i req.edges
      → (p < length req.jobs) × (rank p < rank i)
  earlier p i lt more =
      let pl = edges_between_lt (length req.jobs) req.edges p i ends more in
      (
        pl,
        ranked p i (omega (arith, pl, size)) (omega (arith, lt, size))
            (omega (arith, more, edges p i)),
      )

  -- Statuses that follow from those of the predecessors are those of the rounds.
  pub follows :
      (f : ℕ → ℕ)
      → ((i : ℕ) → i < length req.jobs → f i ≡ outcome f req.edges kinds i)
      → (k i : ℕ) → rank i < k
      → i < length req.jobs
      → f i ≡ rounds req.edges kinds k i
  follows f one zero i h lt = absurd (omega arith)
  follows f one (suc k) i h lt =
      let same = held_back_ext f (rounds req.edges kinds k) req.edges i (λ p more.
        let (pl, less) = earlier p i lt more in follows f one k p (omega (arith, less, h)) pl) in
      ground (arith, one i lt, same)

  stable :
      (k m i : ℕ)
      → rank i < k
      → rank i < m
      → i < length req.jobs
      → rounds req.edges kinds k i ≡ rounds req.edges kinds m i
  stable zero m i h h' lt = absurd (omega arith)
  stable (suc k) zero i h h' lt = absurd (omega arith)
  stable (suc k) (suc m) i h h' lt =
      let same =
        held_back_ext (rounds req.edges kinds k) (rounds req.edges kinds m) req.edges i (λ p more.
          let (pl, less) = earlier p i lt more in
          stable k m p (omega (arith, less, h)) (omega (arith, less, h')) pl) in
      ground (arith, same)

  abbrev pub reference : ℕ → ℕ
  reference i = rounds req.edges kinds (suc (rank i)) i

  pub reference-outcome :
      (i : ℕ) → i < length req.jobs → reference i ≡ outcome reference req.edges kinds i
  reference-outcome i lt =
      let same = held_back_ext (rounds req.edges kinds (rank i)) reference req.edges i (λ p more.
        let (pl, less) = earlier p i lt more in
        stable (rank i) (suc (rank p)) p less (omega arith) pl) in
      ground (arith, same)
