-- ===== src/Worker/Emplacing.antt =====
-- The jobs of a worker's pipeline, before its edges.
use mathlib.Core.Path.{subst}
use sub0pipeline.Prelude.{
  ℕ, suc, ◌+◌, ◌≤◌, ◌<◌, ◌≡◌, ◌↔◌, refl, inl, inr, true, false, none, some, List, [], ◌∷◌, arith,
  length, if◌then◌else◌, ◌==◌, Option-cases,
}
use sub0pipeline.Graph.{new_node, name, optional, configure, valid, Graph, add_node}
use sub0pipeline.Graph.Reachable.{
  empty_graph, Built, new, added, configured, set_name, set_optional, apply_setter,
}
use sub0pipeline.Wire.{JobSpec}
use sub0pipeline.Worker.Pipeline.{
  job_prefix, cancellable_flags, handle_at, emplace_job, emplace_jobs,
}

-- The jobs of a worker's pipeline: optional, none on demand.
pub record Plain (to_string : ℕ → List ℕ) (g : Graph) : Type 0 where
  pub built : Built to_string g
  pub optional : (i : ℕ) → i < g.size → (g.node i).optional ≡ true
  pub ordinary : (i : ℕ) → (g.node i).on_demand ≡ false
  pub untimed : (i : ℕ) → (g.node i).timeout ≡ none
  pub fresh : g.roots_cached ≡ false

record Emplaced (g g' : Graph) : Type 0 where
  size : g'.size ≡ suc g.size
  lists : (p : ℕ) → (g'.node p).successors ≡ (if g.size == p then [] else (g.node p).successors)
  optional : (p : ℕ) → (g'.node p).optional ≡ (if g.size == p then true else (g.node p).optional)
  ordinary : (p : ℕ) → (g'.node p).on_demand ≡ (if g.size == p then false else (g.node p).on_demand)
  untimed : (p : ℕ) → (g'.node p).timeout ≡ (if g.size == p then none else (g.node p).timeout)
  fresh : g.roots_cached ≡ false → g'.roots_cached ≡ false

emplace_job_lem :
    (ts : ℕ → List ℕ) (spec : JobSpec) (g g' : Graph)
    → emplace_job ts spec g ≡ some g'
    → Emplaced g g'
unfolding emplace_job add_node new_node name optional configure valid
emplace_job_lem ts spec g g' e = record {
  size = ground (arith, e);
  lists = λ p. ground (arith, e);
  optional = λ p. ground (arith, e);
  ordinary = λ p. ground (arith, e);
  untimed = λ p. ground (arith, e);
  fresh = λ old. ground (arith, e, old);
}

emplace_job-none :
    (ts : ℕ → List ℕ) (spec : JobSpec) (g : Graph)
    → (emplace_job ts spec g ≡ none) ↔ (65535 < g.size)
unfolding emplace_job add_node
emplace_job-none ts spec g = ground arith

emplace_job-Built :
    (ts : ℕ → List ℕ) (spec : JobSpec) (g g' : Graph)
    → Built ts g
    → emplace_job ts spec g ≡ some g'
    → Built ts g'
unfolding emplace_job
emplace_job-Built ts spec g g' built e =
    elim (Option-cases (add_node ts job_prefix cancellable_flags g)) [
      | inl none_left ↦ absurd (ground (arith, none_left, e))
      | inr ((h, i), room) ↦
          let here = handle_at i in
          let one = added job_prefix cancellable_flags i built room in
          let two = configured (set_name spec.kind.name) here one in
          subst (Built ts) (emplaced h i room) (configured (set_optional true) here two)
    ]
  where
    emplaced :
        (h : Graph) (i : ℕ)
        → add_node ts job_prefix cancellable_flags g ≡ some (h, i)
        → apply_setter
            (set_optional true)
            (handle_at i)
            (apply_setter (set_name spec.kind.name) (handle_at i) h)
          ≡ g'
    emplaced h i room = unfold apply_setter in ground (arith, room, e)

-- Jobs without edges yet.
abbrev pub Bare : Graph → Type 0
Bare g = (p : ℕ) → (g.node p).successors ≡ []

pub emplace_jobs-Plain :
    (ts : ℕ → List ℕ) (specs : List JobSpec) (g g' : Graph)
    → Plain ts g
    → Bare g
    → emplace_jobs ts specs g ≡ some g'
    → Plain ts g' × (g'.size ≡ g.size + length specs) × Bare g'
unfolding emplace_jobs
emplace_jobs-Plain ts [] g g' plain bare e =
    let same : g ≡ g' = ground (arith, e) in
    (subst (Plain ts) same plain, ground (arith, same), subst Bare same bare)
emplace_jobs-Plain ts (spec ∷ specs) g g' plain bare e =
    elim (Option-cases (emplace_job ts spec g)) [
      | inl none_left ↦ absurd (ground (arith, none_left, e))
      | inr (h, one) ↦
          let first = emplace_job_lem ts spec g h one in
          let h_plain : Plain ts h = record {
            built = emplace_job-Built ts spec g h plain.built one;
            optional = λ p l. ground (arith, first.optional p, first.size, plain.optional p, l);
            ordinary = λ p. ground (arith, first.ordinary p, plain.ordinary p);
            untimed = λ p. ground (arith, first.untimed p, plain.untimed p);
            fresh = first.fresh plain.fresh;
          } in
          let h_bare : Bare h = λ p. ground (arith, first.lists p, bare p) in
          let (rest, size, lists) =
            emplace_jobs-Plain ts specs h g' h_plain h_bare (ground (arith, one, e)) in
          (rest, omega (arith, size, first.size), lists)
    ]

pub emplace_jobs-none :
    (ts : ℕ → List ℕ) (specs : List JobSpec) (g : Graph)
    → g.size ≤ 65536
    → (emplace_jobs ts specs g ≡ none) ↔ (65536 < g.size + length specs)
unfolding emplace_jobs
emplace_jobs-none ts [] g fits = (λ e. ground (arith, e), λ l. absurd (omega arith))
emplace_jobs-none ts (spec ∷ specs) g fits = elim (Option-cases (emplace_job ts spec g)) [
  | inl none_left ↦
      (λ e. omega (arith, (emplace_job-none ts spec g).0 none_left), λ l. ground (arith, none_left))
  | inr (h, one) ↦
      let first = emplace_job_lem ts spec g h one in
      let room : g.size ≤ 65535 = ground (arith, one, emplace_job-none ts spec g) in
      let (to, from) = emplace_jobs-none ts specs h (omega (arith, first.size)) in
      (
        λ e. omega (arith, to (ground (arith, one, e)), first.size),
        λ l. ground (arith, one, from (omega (arith, first.size))),
      )
]

pub empty-Plain : (ts : ℕ → List ℕ) → Plain ts empty_graph
unfolding new_node
empty-Plain ts = record {
  built = new;
  optional = λ i l. absurd (omega arith);
  ordinary = λ i. refl;
  untimed = λ i. refl;
  fresh = refl;
}
