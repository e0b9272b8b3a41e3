-- ===== src/Validate/Invariant.antt =====
-- What the loop of `validate` keeps: each degree counts the edges from jobs not yet visited, and
-- the unread part of `ready` holds each unvisited job of degree zero once.
use sub0pipeline.Prelude.{
  ℕ, zero, suc, ◌+◌, ◌%◌, ◌^◌, ◌<◌, ◌≡◌, refl, Bool, List, [], ◌∷◌, arith, if◌then◌else◌, ◌==◌,
  count, count-append, AllBelow, AllBelow-append, AllBelow-mono, total, total_zero, total-suc,
  update, inc32, ltb,
}
use sub0pipeline.Graph.{Graph}
use sub0pipeline.Graph.Degrees.{degree, live_edges}
use sub0pipeline.Graph.Build.{WellFormed, all_live, degree_bound}
use sub0pipeline.Validate.{Kahn, bump_all, in_degrees, initial_ready, relax_one, relax, start}

abbrev pub closed : Bool → ℕ
closed live = if live then 0 else 1

abbrev pub is_zero : ℕ → ℕ
is_zero d = if d == 0 then 1 else 0

-- `todo` are the successors of the last visited job whose degrees are still to be lowered.
pub record Counts (g : Graph) (live : ℕ → Bool) (todo : List ℕ) (k : Kahn) : Type 0 where
  pub lowered : (i : ℕ) → i < g.size → k.degrees i ≡ degree g live i + count i todo
  pub small : (i : ℕ) → i < g.size → k.degrees i < 2 ^ 32
  pub queued : (i : ℕ) → i < g.size → count i k.ready + closed (live i) ≡ is_zero (k.degrees i)
  pub below : AllBelow g.size k.ready

module _ (g : Graph) (live : ℕ → Bool) where
  relax_one-Counts :
      (s : ℕ) (ss : List ℕ) (k : Kahn)
      → s < g.size
      → Counts g live (s ∷ ss) k
      → Counts g live ss (relax_one s k)
  unfolding relax_one
  relax_one-Counts s ss k lt c = record {
    lowered = λ i l. ground (arith, c.lowered i l, c.small i l, c.lowered s lt);
    small = λ i l. ground (arith, c.small i l);
    queued = λ i l.
        ground (arith, c.lowered i l, c.small i l, c.queued i l, count-append i k.ready (s ∷ []));
    below = ground (arith, c.below, AllBelow-append g.size k.ready (s ∷ []));
  }

  pub relax-Counts :
      (ss : List ℕ) (k : Kahn)
      → AllBelow g.size ss
      → Counts g live ss k
      → Counts g live [] (relax ss k)
  unfolding relax
  relax-Counts [] k b c = c
  relax-Counts (s ∷ ss) k b c = relax-Counts ss (relax_one s k) b.1 (relax_one-Counts s ss k b.0 c)

  pub relax-visited : (ss : List ℕ) (k : Kahn) → (relax ss k).visited ≡ k.visited
  unfolding relax relax_one
  relax-visited [] k = refl
  relax-visited (s ∷ ss) k = relax-visited ss (relax_one s k)

-- The first loops establish the invariant.
bump_all_lem :
    (i : ℕ) (ss : List ℕ) (d : ℕ → ℕ) → d i < 2 ^ 32 → bump_all ss d i ≡ (d i + count i ss) % 2 ^ 32
unfolding bump_all
bump_all_lem i [] d h = omega arith
bump_all_lem i (s ∷ ss) d h = ground (arith, bump_all_lem i ss (update d s (inc32 (d s))))

in_degrees_lem :
    (g : Graph) (k i : ℕ) → in_degrees g k i ≡ total k (live_edges g all_live i) % 2 ^ 32
unfolding in_degrees
in_degrees_lem g zero i = rw total_zero refl
in_degrees_lem g (suc k) i = omega (
  arith,
  in_degrees_lem g k i,
  bump_all_lem i (g.node k).successors (in_degrees g k),
  total-suc k (live_edges g all_live i),
)

count-initial_ready :
    (d : ℕ → ℕ) (n i : ℕ) → count i (initial_ready d n) ≡ (if ltb i n then is_zero (d i) else 0)
unfolding initial_ready
count-initial_ready d zero i = ground arith
count-initial_ready d (suc k) i = ground (
  arith,
  count-initial_ready d k i,
  count-append i (initial_ready d k) (if d k == 0 then k ∷ [] else []),
)

initial_ready-below : (d : ℕ → ℕ) (n : ℕ) → AllBelow n (initial_ready d n)
unfolding initial_ready
initial_ready-below d zero = tt
initial_ready-below d (suc k) =
    AllBelow-append (suc k) (initial_ready d k) _
      (AllBelow-mono k (suc k) (initial_ready d k) (omega arith) (initial_ready-below d k))
      (ground arith)

pub start-Counts : (g : Graph) → WellFormed g → Counts g all_live [] (start g)
unfolding start
start-Counts g wf = record {
  lowered = λ i l. omega (arith, in_degrees_lem g g.size i, degree_bound g all_live i wf);
  small = λ i l. omega (arith, in_degrees_lem g g.size i);
  queued = λ i l. ground (arith, count-initial_ready (in_degrees g g.size) g.size i);
  below = initial_ready-below (in_degrees g g.size) g.size;
}
