-- ===== src/Graph/Reachable.antt =====
-- Graphs that the build API of Pipeline and Job can produce.
use sub0pipeline.Prelude.{
  ℕ, suc, ◌≤◌, ◌<◌, ◌≡◌, ◌∙◌, sym, ap, Bool, false, List, [], Option, some, arith, count, AllBelow,
  AllBelow-count, AllBelow-mono, total, total_ext, total-suc, total_none, if◌then◌else◌, ◌==◌,
}
use sub0pipeline.Graph.{
  Graph, Job, Flags, add_node, new_node, precede, succeed, configure, name, timeout, stack, core,
  priority, optional, status_text,
}
use sub0pipeline.Graph.Degrees.{degree, live_edges}
use sub0pipeline.Graph.Build.{WellFormed, all_live}
use sub0pipeline.Graph.Edges.{Named, precede-WellFormed, succeed-precede}

-- A new Pipeline.
abbrev pub empty_graph : Graph
empty_graph = record {
  size = 0;
  node = λ _. new_node (record { on_demand = false; cancellable = false; deferred = false }) [];
  roots_cached = false;
}

-- The setters of Job.
pub data Setter : Type 0 where
  set_name : List ℕ → Setter
  set_timeout : Option ℕ → Setter
  set_stack : ℕ → Setter
  set_core : ℕ → Setter
  set_priority : ℕ → Setter
  set_optional : Bool → Setter
  set_status_text : Option (List ℕ) → Setter

unfoldable pub apply_setter : Setter → Job → Graph → Graph
unfolding name timeout stack core priority optional status_text
apply_setter (set_name n) = name n
apply_setter (set_timeout t) = timeout t
apply_setter (set_stack b) = stack b
apply_setter (set_core c) = core c
apply_setter (set_priority p) = priority p
apply_setter (set_optional b) = optional b
apply_setter (set_status_text t) = status_text t

-- Any sequence of build calls in which no exception was thrown, with handles of this pipeline.
pub data Built (to_string : ℕ → List ℕ) : Graph → Type 0 where
  new : Built to_string empty_graph
  added :
      {g g' : Graph} (prefix : List ℕ) (flags : Flags) (i : ℕ)
      → Built to_string g
      → add_node to_string prefix flags g ≡ some (g', i)
      → Built to_string g'
  preceded :
      {g g' : Graph} (self other : Job)
      → Built to_string g
      → Named self g
      → Named other g
      → precede self other g ≡ some g'
      → Built to_string g'
  succeeded :
      {g g' : Graph} (self other : Job)
      → Built to_string g
      → Named self g
      → Named other g
      → succeed self other g ≡ some g'
      → Built to_string g'
  configured :
      {g : Graph} (s : Setter) (self : Job)
      → Built to_string g
      → Built to_string (apply_setter s self g)

empty-WellFormed : WellFormed empty_graph
empty-WellFormed = record {
  fits = omega arith;
  targets = λ p l. absurd (omega arith);
  short = λ p l. absurd (omega arith);
  counted = λ i l. absurd (omega arith);
}

-- A change that keeps the edges and the counts keeps the graph well formed.
same-WellFormed :
    (g g' : Graph)
    → g'.size ≡ g.size
    → ((p : ℕ) → (g'.node p).successors ≡ (g.node p).successors)
    → ((i : ℕ) → (g'.node i).predecessor_count ≡ (g.node i).predecessor_count)
    → WellFormed g
    → WellFormed g'
same-WellFormed g g' size lists counts wf = record {
  fits = omega (arith, wf.fits);
  targets = λ p l. rw (lists p, size) (wf.targets p (omega (arith, size)));
  short = λ p l. rw (lists p) (wf.short p (omega (arith, size)));
  counted = λ i l.
      counts i
      ∙ wf.counted i (omega (arith, size))
      ∙ total_ext g.size (live_edges g all_live i) (live_edges g' all_live i)
          (λ p pl. ap (count i) (sym (lists p)))
      ∙ ap (λ n. total n (live_edges g' all_live i)) (sym size);
}

apply_setter-WellFormed :
    (s : Setter) (self : Job) (g : Graph) → WellFormed g → WellFormed (apply_setter s self g)
unfolding apply_setter configure
apply_setter-WellFormed (set_name n) self g wf =
    same-WellFormed g _ (ground arith) (λ p. ground arith) (λ i. ground arith) wf
apply_setter-WellFormed _ self g wf =
    same-WellFormed g _ (ground arith) (λ p. ground arith) (λ i. ground arith) wf

module _ (to_string : ℕ → List ℕ) (prefix : List ℕ) (flags : Flags) (g g' : Graph) (i : ℕ)
    (wf : WellFormed g) (e : add_node to_string prefix flags g ≡ some (g', i)) where
  record Added : Type 0 where
    size : g'.size ≡ suc g.size
    room : g.size ≤ 65535
    lists : (p : ℕ) → (g'.node p).successors ≡ (if g.size == p then [] else (g.node p).successors)
    counters :
        (p : ℕ)
        → (g'.node p).predecessor_count ≡ (if g.size == p then 0 else (g.node p).predecessor_count)

  added_lem : Added
  unfolding add_node
  added_lem = record {
    size = ground arith;
    room = ground arith;
    lists = λ p. ground arith;
    counters = λ p. ground arith;
  }

  open added_lem use {size, room, lists, counters}

  degree_new : (j : ℕ) → degree g' all_live j ≡ degree g all_live j
  degree_new j =
      ap (λ n. total n (live_edges g' all_live j)) size
      ∙ total-suc g.size (live_edges g' all_live j)
      ∙ omega (
        arith,
        total_ext g.size (live_edges g' all_live j) (live_edges g all_live j)
            (λ p l. ground (arith, ap (count j) (lists p))),
        last,
      )
    where
      last : live_edges g' all_live j g.size ≡ 0
      last = ground (arith, ap (count j) (lists g.size))

  none_before : degree g all_live g.size ≡ 0
  none_before =
      total_none g.size (live_edges g all_live g.size)
        (λ p l. ground (arith, AllBelow-count g.size g.size (g.node p).successors (wf.targets p l)))

  add_node-WellFormed : WellFormed g'
  add_node-WellFormed = record {
    fits = omega (arith, size, room);
    targets = λ p l.
        rw (lists p, size)
          (targets p (λ l'. AllBelow-mono g.size (suc g.size) _ (omega arith) (wf.targets p l'))
            (omega (arith, size)));
    short = λ p l. rw (lists p) (ground (arith, size, wf.short p));
    counted = λ j l. ground (arith, size, counters j, degree_new j, none_before, wf.counted j);
  }
    where
      targets :
          (p : ℕ)
          → (p < g.size → AllBelow (suc g.size) (g.node p).successors)
          → p < suc g.size
          → AllBelow (suc g.size) (if g.size == p then [] else (g.node p).successors)
      targets p old l = ground (arith, old)

-- Every graph that adding jobs, succeed and precede between its own jobs, and the setters
-- produce is well formed.
pub Built-WellFormed : (to_string : ℕ → List ℕ) {g : Graph} → Built to_string g → WellFormed g
Built-WellFormed ts new = empty-WellFormed
Built-WellFormed ts (added {g} {g'} prefix flags i b e) =
    add_node-WellFormed ts prefix flags g g' i (Built-WellFormed ts b) e
Built-WellFormed ts (preceded {g} {g'} self other b s o e) =
    (precede-WellFormed self other g g' (Built-WellFormed ts b) s o e).0
Built-WellFormed ts (succeeded {g} {g'} self other b s o e) =
    (precede-WellFormed other self g g' (Built-WellFormed ts b) o s
      (sym (succeed-precede self other g s.0 o.0) ∙ e)).0
Built-WellFormed ts (configured {g} s self b) =
    apply_setter-WellFormed s self g (Built-WellFormed ts b)
