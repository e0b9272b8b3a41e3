-- ===== src/Graph.antt =====
-- The build phase of src/sub0pipeline.cpp: Pipeline::Node, Impl::addNode, the Job builder methods
-- and the edges of Job::succeed and Job::precede. A vector is its size and a total function of the
-- index; `successors` is the list that PoolSuccessors stores (see Successors).
pub mod Degrees
pub mod Ranks
pub mod Build
pub mod Edges
pub mod Reachable
use sub0pipeline.Prelude.{
  ℕ, ◌+◌, ◌%◌, ◌^◌, ◌<◌, Bool, true, false, not, ◌&&◌, Option, none, some, List, [], ◌∷◌, ◌++◌, ltb,
  leb, ◌==◌, if◌then◌else◌, update, length, inc32,
}
use mathlib.Core.List.{reverse}

pub record Node : Type 0 where
  pub optional : Bool
  pub on_demand : Bool
  pub cancellable : Bool
  pub deferred : Bool
  pub priority : ℕ
  pub core_affinity : ℕ  -- the int, plus one: 0 is "any core"
  pub stack_bytes : ℕ
  pub predecessor_count : ℕ
  pub timeout : Option ℕ  -- milliseconds; `none` is milliseconds::max()
  pub successors : List ℕ
  pub name : List ℕ
  pub status_text : Option (List ℕ)

pub record Graph : Type 0 where
  pub size : ℕ
  pub node : ℕ → Node
  pub roots_cached : Bool

-- PoolSuccessors::kCountMask: the most successors of one job.
abbrev pub count_mask : ℕ
count_mask = 32767

-- The flags that a kind of job is added with.
pub record Flags : Type 0 where
  pub on_demand : Bool
  pub cancellable : Bool
  pub deferred : Bool

abbrev pub plain_flags : Flags
plain_flags = record { on_demand = false; cancellable = false; deferred = false }

-- Node's default member initializers, with the flags and the name that addNode stores.
unfoldable pub new_node : Flags → List ℕ → Node
new_node flags name = record {
  optional = false;
  on_demand = flags.on_demand;
  cancellable = flags.cancellable;
  deferred = flags.deferred;
  priority = 5;
  core_affinity = 0;
  stack_bytes = 8192;
  predecessor_count = 0;
  timeout = none;
  successors = [];
  name = name;
  status_text = none;
}

-- Impl::addNode. `none` is the exception of ensureNodeIndexFitsSuccessorStorage; `to_string` is
-- std::to_string.
unfoldable pub add_node : (ℕ → List ℕ) → List ℕ → Flags → Graph → Option (Graph × ℕ)
unfolding new_node
add_node to_string prefix flags g =
    if ltb 65535 g.size
    then none
    else some (
      record {
        size = g.size + 1;
        node = update g.node g.size (new_node flags (prefix ++ to_string g.size));
        roots_cached = false;
      },
      g.size,
    )

-- A Job handle: its index, and whether its anchor has an owner.
pub record Job : Type 0 where
  pub idx : ℕ
  pub anchored : Bool

-- Job::valid
unfoldable pub valid : Job → Bool
valid j = not (j.idx == 4294967295)

-- PoolSuccessors::push_back as its callers see it: `none` is the exception at 32767 entries.
unfoldable pub push_back : ℕ → List ℕ → Option (List ℕ)
push_back v xs = if length xs == count_mask then none else some (xs ++ v ∷ [])

-- The edge that succeed and precede record: `to` runs after `from`.
unfoldable pub add_edge : ℕ → ℕ → Graph → Option Graph
unfolding push_back
add_edge from to g = elim (push_back (to % 2 ^ 16) (g.node from).successors) [
  | none ↦ none
  | some succs ↦
      let linked = update g.node from (record (g.node from) { successors = succs }) in
      some (record g {
        node =
            update linked to
              (record (linked to) { predecessor_count = inc32 (linked to).predecessor_count });
        roots_cached = false;
      })
]

-- Job::succeed(Job). `none` is the exception of push_back, thrown before the count rises.
unfoldable pub succeed : Job → Job → Graph → Option Graph
unfolding valid add_edge
succeed self other g =
    if self.anchored && (valid self && valid other) then add_edge other.idx self.idx g else some g

-- Job::precede(Job)
unfoldable pub precede : Job → Job → Graph → Option Graph
unfolding valid add_edge
precede self other g =
    if self.anchored && (valid self && valid other) then add_edge self.idx other.idx g else some g

-- A builder call on the node of a handle: nothing happens for a handle with no pipeline.
unfoldable pub configure : (Node → Node) → Job → Graph → Graph
unfolding valid
configure f self g =
    if self.anchored && valid self
    then record g { node = update g.node self.idx (f (g.node self.idx)) }
    else g

unfoldable pub name : List ℕ → Job → Graph → Graph
unfolding configure
name n = configure (λ nd. record nd { name = n })

unfoldable pub timeout : Option ℕ → Job → Graph → Graph
unfolding configure
timeout t = configure (λ nd. record nd { timeout = t })

unfoldable pub stack : ℕ → Job → Graph → Graph
unfolding configure
stack bytes = configure (λ nd. record nd { stack_bytes = bytes })

unfoldable pub core : ℕ → Job → Graph → Graph
unfolding configure
core c = configure (λ nd. record nd { core_affinity = c })

unfoldable pub priority : ℕ → Job → Graph → Graph
unfolding configure
priority p = configure (λ nd. record nd { priority = p })

unfoldable pub optional : Bool → Job → Graph → Graph
unfolding configure
optional opt = configure (λ nd. record nd { optional = opt })

unfoldable pub status_text : Option (List ℕ) → Job → Graph → Graph
unfolding configure
status_text text = configure (λ nd. record nd { status_text = text })
