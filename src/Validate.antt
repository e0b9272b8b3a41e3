-- ===== src/Validate.antt =====
-- Pipeline::validate of src/sub0pipeline.cpp: Kahn's algorithm over validationDegrees_ and
-- validationReady_. The vector `ready` is `visited`, its read part, and `ready`, the rest.
pub mod Invariant
pub mod Soundness
pub mod Completeness
use sub0pipeline.Prelude.{
  ℕ, zero, suc, List, [], ◌∷◌, ◌++◌, ◌==◌, if◌then◌else◌, update, length, inc32, dec32,
}
use sub0pipeline.Types.{Expected, value, unexpected, PipelineError}
use sub0pipeline.Graph.{Graph}

-- `for (auto succ : successors) ++inDegree[succ];`
pub bump_all : List ℕ → (ℕ → ℕ) → ℕ → ℕ
bump_all [] degrees = degrees
bump_all (s ∷ ss) degrees = bump_all ss (update degrees s (inc32 (degrees s)))

-- The first loop, over the first `k` nodes.
pub in_degrees : Graph → ℕ → ℕ → ℕ
in_degrees g zero = λ _. 0
in_degrees g (suc k) = bump_all (g.node k).successors (in_degrees g k)

-- The second loop, over the first `k` nodes.
pub initial_ready : (ℕ → ℕ) → ℕ → List ℕ
initial_ready degrees zero = []
initial_ready degrees (suc k) = initial_ready degrees k ++ (if degrees k == 0 then k ∷ [] else [])

pub record Kahn : Type 0 where
  pub degrees : ℕ → ℕ
  pub visited : List ℕ
  pub ready : List ℕ

-- `if (--inDegree[succ] == 0U) ready.push_back(succ);`
pub relax_one : ℕ → Kahn → Kahn
relax_one s k =
    let d = dec32 (k.degrees s) in
    record k {
      degrees = update k.degrees s d;
      ready = if d == 0 then k.ready ++ s ∷ [] else k.ready;
    }

pub relax : List ℕ → Kahn → Kahn
relax [] k = k
relax (s ∷ ss) k = relax ss (relax_one s k)

-- One round of the `while` loop: `x` is read and `rest` is unread.
pub visit_one : Graph → ℕ → List ℕ → Kahn → Kahn
visit_one g x rest k =
    relax (g.node x).successors (record k { visited = k.visited ++ x ∷ []; ready = rest })

-- The `while` test: the loop ends when nothing is unread, and goes on with `next` otherwise.
pub read_next : Graph → (Kahn → Kahn) → List ℕ → Kahn → Kahn
read_next g next [] k = k
read_next g next (x ∷ rest) k = next (visit_one g x rest k)

-- The `while` loop, on fuel.
pub visit : Graph → ℕ → Kahn → Kahn
unfolding read_next
visit g zero k = k
visit g (suc fuel) k = read_next g (visit g fuel) k.ready k

pub start : Graph → Kahn
unfolding in_degrees initial_ready bump_all
start g = record {
  degrees = in_degrees g g.size;
  visited = [];
  ready = initial_ready (in_degrees g g.size) g.size;
}

-- The loop visits each node once, so `size` rounds are enough.
unfoldable pub validate : Graph → Expected (Unit {0})
unfolding start visit visit_one relax relax_one
validate g =
    if length (visit g g.size (start g)).visited == g.size
    then value tt
    else unexpected PipelineError.cyclic_dependency
