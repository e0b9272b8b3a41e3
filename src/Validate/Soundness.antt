-- ===== src/Validate/Soundness.antt =====
-- The visit order ranks the jobs, so a graph that `validate` accepts has no cycle.
use sub0pipeline.Prelude.{
  ℕ, zero, suc, ◌+◌, ◌≤◌, ◌<◌, ◌≡◌, refl, sym, ◌∙◌, ap, inl, inr, Bool, true, false, List,
  List-cases, ℕ_discrete, [], ◌∷◌, ◌++◌, arith, length, length-append, count, AllBelow, total,
  total_at, total-lt, total_none, Bool-cases, update,
}
use mathlib.Core.Path.{subst}
use sub0pipeline.Types.{value}
use sub0pipeline.Graph.{Graph}
use sub0pipeline.Graph.Degrees.{Edge, degree_close, degree_zero}
use sub0pipeline.Graph.Build.{WellFormed, all_live}
use sub0pipeline.Graph.Ranks.{Acyclic}
use sub0pipeline.Validate.{Kahn, relax, visit_one, read_next, visit, start, validate}
use sub0pipeline.Validate.Invariant.{closed, Counts, relax-Counts, relax-visited, start-Counts}

-- Each visited job is ranked by its position, and its predecessors are visited before it.
record Ranked (g : Graph) (live : ℕ → Bool) (m : ℕ) (rank : ℕ → ℕ) : Type 0 where
  earlier : (p : ℕ) → p < g.size → live p ≡ false → rank p < m
  ordered :
      (p s : ℕ)
      → p < g.size
      → Edge g p s
      → s < g.size
      → live s ≡ false
      → (live p ≡ false) × (rank p < rank s)

pub record Inv (g : Graph) (k : Kahn) : Type 0 where
  pub live : ℕ → Bool
  pub rank : ℕ → ℕ
  pub counts : Counts g live [] k
  pub seen : length k.visited ≡ total g.size (λ i. closed (live i))
  ranked : Ranked g live (length k.visited) rank

closed-le : (b : Bool) → closed b ≤ 1
closed-le b = ground arith

-- Reading `x` from the queue closes it.
module _ (g : Graph) (x : ℕ) (rest : List ℕ) (k : Kahn) (e : k.ready ≡ x ∷ rest)
    (inv : Inv g k) where
  live' : ℕ → Bool
  live' = update inv.live x false

  rank' : ℕ → ℕ
  rank' = update inv.rank x (length k.visited)

  head_lt : x < g.size
  head_lt = (subst (AllBelow g.size) e inv.counts.below).0

  in_queue : (i : ℕ) → count i k.ready ≡ count i (x ∷ rest)
  in_queue i = ap (count i) e

  head_live : (inv.live x ≡ true) × (k.degrees x ≡ 0)
  head_live = ground (arith, inv.counts.queued x head_lt, in_queue x)

  popped : Kahn
  popped = record k { visited = k.visited ++ x ∷ []; ready = rest }

  popped-Counts : Counts g live' (g.node x).successors popped
  unfolding live' popped
  popped-Counts = record {
    lowered = λ i l. omega (
      arith,
      inv.counts.lowered i l,
      degree_close g inv.live live' x i head_lt head_live.0 (ground arith) (λ p ne. ground arith),
    );
    small = λ i l. inv.counts.small i l;
    queued = λ i l. ground (arith, inv.counts.queued i l, in_queue i, head_live);
    below = (subst (AllBelow g.size) e inv.counts.below).1;
  }

  seen' : length (k.visited ++ x ∷ []) ≡ total g.size (λ i. closed (live' i))
  unfolding live'
  seen' = ground (
    arith,
    inv.seen,
    head_live,
    length-append k.visited (x ∷ []),
    total_at g.size x (λ i. closed (inv.live i)) (λ i. closed (live' i)) head_lt
        (λ i l ne. ground arith),
  )

  -- All predecessors of `x` are visited, since its degree is zero.
  no_live_pred : (p : ℕ) → p < g.size → Edge g p x → inv.live p ≡ false
  no_live_pred p l edge =
      degree_zero g inv.live p x (omega (arith, inv.counts.lowered x head_lt, head_live)) l edge

  ranked' : Ranked g live' (suc (length k.visited)) rank'
  unfolding live' rank'
  ranked' = record {
    earlier = λ p l h. ground (arith, inv.ranked.earlier p l);
    ordered = λ p s l edge sl h. elim (ℕ_discrete x s) [
      | yes same ↦
          let closed_p = no_live_pred p l (rw same edge) in
          let before = inv.ranked.earlier p l closed_p in
          ground (arith, closed_p, before, same, head_live)
      | no other ↦
          let old = inv.ranked.ordered p s l edge sl (ground arith) in
          ground (arith, old, head_live)
    ];
  }

  visit_one-Inv :
      WellFormed g
      → Inv g (visit_one g x rest k)
        × (length (visit_one g x rest k).visited ≡ suc (length k.visited))
  unfolding visit_one popped
  visit_one-Inv wf =
      let ss = (g.node x).successors in
      let same = relax-visited g live' ss popped in
      let longer : length (relax ss popped).visited ≡ suc (length k.visited) =
        ap length same ∙ length-append k.visited (x ∷ []) ∙ omega arith in
      (
        record {
          live = live';
          rank = rank';
          counts = relax-Counts g live' ss popped (wf.targets x head_lt) popped-Counts;
          seen = ap length same ∙ seen';
          ranked = rw longer ranked';
        },
        longer,
      )

start-Inv : (g : Graph) → WellFormed g → Inv g (start g)
unfolding start
start-Inv g wf = record {
  live = all_live;
  rank = λ _. 0;
  counts = start-Counts g wf;
  seen = sym (total_none g.size (λ i. closed true) (λ i l. refl));
  ranked = record { earlier = λ p l h. cc; ordered = λ p s l e sl h. cc };
}

visit_nil : (g : Graph) (fuel : ℕ) (k : Kahn) → k.ready ≡ [] → visit g (suc fuel) k ≡ k
unfolding visit
visit_nil g fuel k e = ap (λ q. read_next g (visit g fuel) q k) e

visit_cons :
    (g : Graph) (fuel : ℕ) (k : Kahn) (x : ℕ) (rest : List ℕ)
    → k.ready ≡ x ∷ rest
    → visit g (suc fuel) k ≡ visit g fuel (visit_one g x rest k)
unfolding visit
visit_cons g fuel k x rest e = ap (λ q. read_next g (visit g fuel) q k) e

-- The loop keeps the invariant, and `size` rounds empty the queue.
pub visit-Inv : (g : Graph) (fuel : ℕ) (k : Kahn) → WellFormed g → Inv g k → Inv g (visit g fuel k)
visit-Inv g zero k wf inv = unfold visit in inv
visit-Inv g (suc fuel) k wf inv = elim (List-cases k.ready) [
  | inl e ↦ subst (Inv g) (sym (visit_nil g fuel k e)) inv
  | inr (x, rest, e) ↦
      subst (Inv g) (sym (visit_cons g fuel k x rest e))
        (visit-Inv g fuel _ wf (visit_one-Inv g x rest k e inv wf).0)
]

visited-lt :
    (g : Graph) (k : Kahn) (x : ℕ) (rest : List ℕ)
    → Inv g k
    → k.ready ≡ x ∷ rest
    → length k.visited < g.size
visited-lt g k x rest inv e = omega (
  arith,
  inv.seen,
  total-lt g.size x (λ i. closed (inv.live i)) (head_lt g x rest k e inv)
      (λ i l. closed-le (inv.live i)) (ground (arith, head_live g x rest k e inv)),
)

visit-empties :
    (g : Graph) (fuel : ℕ) (k : Kahn)
    → WellFormed g
    → Inv g k
    → g.size ≤ fuel + length k.visited
    → (visit g fuel k).ready ≡ []
visit-empties g zero k wf inv h =
    unfold visit in
    elim (List-cases k.ready) [
      | inl e ↦ e
      | inr (x, rest, e) ↦ absurd (omega (arith, visited-lt g k x rest inv e))
    ]
visit-empties g (suc fuel) k wf inv h = elim (List-cases k.ready) [
  | inl e ↦ ap (λ (k' : Kahn). k'.ready) (visit_nil g fuel k e) ∙ e
  | inr (x, rest, e) ↦
      let step = visit_one-Inv g x rest k e inv wf in
      ap (λ (k' : Kahn). k'.ready) (visit_cons g fuel k x rest e)
      ∙ visit-empties g fuel _ wf step.0 (omega (arith, step.1))
]

-- What holds when the loop of `validate` has ended.
pub final-Inv : (g : Graph) → WellFormed g → Inv g (visit g g.size (start g))
final-Inv g wf = visit-Inv g g.size (start g) wf (start-Inv g wf)

pub final-ready : (g : Graph) → WellFormed g → (visit g g.size (start g)).ready ≡ []
final-ready g wf = visit-empties g g.size (start g) wf (start-Inv g wf) (omega arith)

all_closed :
    (g : Graph) (live : ℕ → Bool)
    → total g.size (λ i. closed (live i)) ≡ g.size
    → (i : ℕ) → i < g.size
    → live i ≡ false
all_closed g live full i lt = elim (Bool-cases (live i)) [
  | inr e ↦ e
  | inl e ↦ absurd (
      omega (
        arith,
        full,
        total-lt g.size i (λ j. closed (live j)) lt (λ j l. closed-le (live j)) (ground arith),
      ))
]

-- The loop of `validate` visits at most `size` jobs, and a graph for which it visits all is acyclic.
pub validate-Acyclic : (g : Graph) → WellFormed g → validate g ≡ value tt → Acyclic g
unfolding validate
validate-Acyclic g wf ok =
    (inv.rank, λ p s l sl edge. (inv.ranked.ordered p s l edge sl (shut s sl)).1)
  where
    inv : Inv g (visit g g.size (start g))
    inv = final-Inv g wf

    full : length (visit g g.size (start g)).visited ≡ g.size
    full = ground arith

    shut : (i : ℕ) → i < g.size → inv.live i ≡ false
    shut = all_closed g inv.live (sym inv.seen ∙ full)
