-- ===== src/Worker/Building.antt =====
-- The graph of a request.
use mathlib.Core.Path.{subst}
use sub0pipeline.Prelude.{
  ℕ, ◌+◌, ◌≤◌, ◌<◌, ◌≡◌, ◌≢◌, ◌⊎◌, ◌↔◌, ◌∙◌, refl, inl, inr, false, Option, none, some, List, [],
  ◌∷◌, arith, length, length-append, count, count-append, if◌then◌else◌, ◌==◌, ◌&&◌, Option-cases,
}
use sub0pipeline.Graph.{push_back, add_edge, new_node, valid, Graph, succeed, count_mask}
use sub0pipeline.Graph.Reachable.{empty_graph, succeeded, Built-WellFormed}
use sub0pipeline.Wire.{WireEdge, SubGraphRequest}
use sub0pipeline.Wire.Entries.{EdgesOk, edge_cons}
use sub0pipeline.Worker.Emplacing.{Plain, Bare, emplace_jobs-Plain, emplace_jobs-none, empty-Plain}
use sub0pipeline.Worker.Pipeline.{handle_at, emplace_jobs, link_edges, build}

-- The edges of a request from `p` to `i`.
abbrev pub edges_between : ℕ → ℕ → List WireEdge → ℕ
edges_between p i [] = 0
edges_between p i (e ∷ es) = (if (e.from == p) && (e.to == i) then 1 else 0) + edges_between p i es

abbrev pub edges_from : ℕ → List WireEdge → ℕ
edges_from p [] = 0
edges_from p (e ∷ es) = (if e.from == p then 1 else 0) + edges_from p es

-- The ends of the edges are jobs.
abbrev EndsBelow : ℕ → List WireEdge → Type 0
EndsBelow n [] = Unit {0}
EndsBelow n (e ∷ es) = (e.from < n) × (e.to < n) × EndsBelow n es

EdgesOk-EndsBelow : (n : ℕ) (es : List WireEdge) → EdgesOk n es → EndsBelow n es
EdgesOk-EndsBelow n [] ok = tt
EdgesOk-EndsBelow n (e ∷ es) (edge_cons fit ok) =
    (ground (arith, fit), ground (arith, fit), EdgesOk-EndsBelow n es ok)

record Joined (from to : ℕ) (g g' : Graph) : Type 0 where
  size : g'.size ≡ g.size
  counts :
      (p i : ℕ)
      → count i (g'.node p).successors
        ≡ count i (g.node p).successors + (if (from == p) && (to == i) then 1 else 0)
  lengths :
      (p : ℕ)
      → length (g'.node p).successors ≡ length (g.node p).successors + (if from == p then 1 else 0)
  optional : (p : ℕ) → (g'.node p).optional ≡ (g.node p).optional
  ordinary : (p : ℕ) → (g'.node p).on_demand ≡ (g.node p).on_demand
  untimed : (p : ℕ) → (g'.node p).timeout ≡ (g.node p).timeout
  fresh : g.roots_cached ≡ false → g'.roots_cached ≡ false

abbrev joined : WireEdge → Graph → Option Graph
joined e g = succeed (handle_at e.to) (handle_at e.from) g

joined_lem :
    (e : WireEdge) (g g' : Graph)
    → e.from < 65536
    → e.to < 65536
    → joined e g ≡ some g'
    → Joined e.from e.to g g'
unfolding succeed add_edge valid push_back
joined_lem e g g' from_lt to_lt h = record {
  size = ground (arith, h);
  counts = λ p i. ground (arith, h, count-append i (g.node e.from).successors (e.to ∷ []));
  lengths = λ p. ground (arith, h, length-append (g.node e.from).successors (e.to ∷ []));
  optional = λ p. ground (arith, h);
  ordinary = λ p. ground (arith, h);
  untimed = λ p. ground (arith, h);
  fresh = λ old. ground (arith, h, old);
}

joined-none :
    (e : WireEdge) (g : Graph)
    → e.from < 65536
    → e.to < 65536
    → (joined e g ≡ none) ↔ (length (g.node e.from).successors ≡ count_mask)
unfolding succeed add_edge valid push_back
joined-none e g from_lt to_lt = (λ h. ground (arith, h), λ h. ground (arith, h))

link_edges-Plain :
    (ts : ℕ → List ℕ) (es : List WireEdge) (g g' : Graph)
    → Plain ts g
    → EndsBelow g.size es
    → link_edges es g ≡ some g'
    → Plain ts g'
      × (g'.size ≡ g.size)
      × ((p i : ℕ)
          → count i (g'.node p).successors ≡ count i (g.node p).successors + edges_between p i es)
unfolding link_edges
link_edges-Plain ts [] g g' plain ends h =
    let same : g ≡ g' = ground (arith, h) in
    (subst (Plain ts) same plain, ground (arith, same), λ p i. ground (arith, same))
link_edges-Plain ts (e ∷ es) g g' plain ends h = elim (Option-cases (joined e g)) [
  | inl none_left ↦ absurd (ground (arith, none_left, h))
  | inr (k, one) ↦
      let fits = (Built-WellFormed ts plain.built).fits in
      let first = joined_lem e g k (omega (arith, ends.0)) (omega (arith, ends.1)) one in
      let k_plain : Plain ts k = record {
        built =
            succeeded (handle_at e.to) (handle_at e.from) plain.built (refl, ends.1) (refl, ends.0)
              one;
        optional = λ p l. first.optional p ∙ plain.optional p (omega (arith, l, first.size));
        ordinary = λ p. first.ordinary p ∙ plain.ordinary p;
        untimed = λ p. first.untimed p ∙ plain.untimed p;
        fresh = first.fresh plain.fresh;
      } in
      let k_ends : EndsBelow k.size es = ground (arith, first.size, ends.2) in
      let (rest, size, counts) =
        link_edges-Plain ts es k g' k_plain k_ends (ground (arith, one, h)) in
      (rest, size ∙ first.size, λ p i. omega (arith, counts p i, first.counts p i))
]

link_edges-none :
    (es : List WireEdge) (g : Graph)
    → g.size ≤ 65536
    → EndsBelow g.size es
    → ((p : ℕ) → length (g.node p).successors ≤ count_mask)
    → (link_edges es g ≡ none)
      ↔ ((p : ℕ) × (count_mask < length (g.node p).successors + edges_from p es))
unfolding link_edges
link_edges-none [] g fits ends short =
    (λ h. absurd (ground (arith, h)), λ (p, more). absurd (omega (arith, more, short p)))
link_edges-none (e ∷ es) g fits ends short = elim (Option-cases (joined e g)) [
  | inl none_left ↦
      let full = (joined-none e g (omega (arith, ends.0)) (omega (arith, ends.1))).0 none_left in
      (λ h. (e.from, ground (arith, full)), λ h. ground (arith, none_left))
  | inr (k, one) ↦
      let first = joined_lem e g k (omega (arith, ends.0)) (omega (arith, ends.1)) one in
      let open_list : length (g.node e.from).successors ≢ count_mask = λ full.
        ground
          (arith, one, (joined-none e g (omega (arith, ends.0)) (omega (arith, ends.1))).1 full) in
      let (to, from) =
        link_edges-none es k (omega (arith, first.size)) (ground (arith, first.size, ends.2))
          (λ p. ground (arith, first.lengths p, short p, open_list)) in
      (
        λ h.
            let (p, more) = to (ground (arith, one, h)) in
            (p, omega (arith, more, first.lengths p)),
        λ (p, more). ground (arith, one, from (p, omega (arith, more, first.lengths p))),
      )
]

-- The construction of the pipeline of a request throws exactly if there are more than 65536 jobs or more
-- than 32767 edges from one job; if it does not throw, the pipeline has the request's jobs, all optional
-- and none on demand, and between two jobs as many edges as the request.
pub build_decides :
    (ts : ℕ → List ℕ) (req : SubGraphRequest)
    → EdgesOk (length req.jobs) req.edges
    → ((build ts req ≡ none)
        ↔ ((65536 < length req.jobs) ⊎ ((p : ℕ) × (count_mask < edges_from p req.edges))))
      × ((g : Graph)
          → build ts req ≡ some g
          → Plain ts g
            × (g.size ≡ length req.jobs)
            × ((p i : ℕ) → count i (g.node p).successors ≡ edges_between p i req.edges))
unfolding build
build_decides ts req ok =
    let ends = EdgesOk-EndsBelow (length req.jobs) req.edges ok in
    let (too_many, enough) = emplace_jobs-none ts req.jobs empty_graph (omega arith) in
    elim (Option-cases (emplace_jobs ts req.jobs empty_graph)) [
      | inl none_left ↦ (
        (λ h. inl (omega (arith, too_many none_left)), λ h. ground (arith, none_left)),
        λ g h. absurd (ground (arith, none_left, h)),
      )
      | inr (j, one) ↦
          let (plain, size, bare) =
            emplace_jobs-Plain ts req.jobs empty_graph j (empty-Plain ts) (empty-Bare) one in
          let few : length req.jobs ≤ 65536 =
            omega (arith, (Built-WellFormed ts plain.built).fits, size) in
          let j_ends : EndsBelow j.size req.edges = ground (arith, size, ends) in
          let (to, from) =
            link_edges-none req.edges j (omega (arith, size, few)) j_ends
              (λ p. ground (arith, bare p)) in
          (
            (
              λ h.
                  let (p, more) = to (ground (arith, one, h)) in
                  inr (p, ground (arith, more, bare p)),
              λ h. elim h [
                | inl many ↦ absurd (omega (arith, many, few))
                | inr (p, more) ↦ ground (arith, one, from (p, ground (arith, more, bare p)))
              ],
            ),
            λ g h.
                let (g_plain, g_size, counts) =
                  link_edges-Plain ts req.edges j g plain j_ends (ground (arith, one, h)) in
                (g_plain, omega (arith, g_size, size), λ p i. ground (arith, counts p i, bare p)),
          )
    ]
  where
    empty-Bare : Bare empty_graph
    empty-Bare p = unfold new_node in refl
