-- ===== src/Run/Log.antt =====
-- What the observer's events say: how often a job started and finished, and in which order.
use sub0pipeline.Prelude.{ℕ, ◌+◌, ◌<◌, ◌≡◌, Bool, true, false, List, [], ◌∷◌, ◌==◌, if◌then◌else◌}
use sub0pipeline.Types.{JobStatus}
use sub0pipeline.Graph.{Graph}
use sub0pipeline.Graph.Degrees.{Edge}
use sub0pipeline.Run.{Event, started, finished, failed, resolved}

abbrev pub starts : ℕ → List Event → ℕ
starts i [] = 0
starts i (started j ∷ l) = (if i == j then 1 else 0) + starts i l
starts i (finished j st d ∷ l) = starts i l
starts i (failed j e ∷ l) = starts i l
starts i (resolved j ∷ l) = starts i l

abbrev pub finishes : ℕ → List Event → ℕ
finishes i [] = 0
finishes i (started j ∷ l) = finishes i l
finishes i (finished j st d ∷ l) = (if i == j then 1 else 0) + finishes i l
finishes i (failed j e ∷ l) = finishes i l
finishes i (resolved j ∷ l) = finishes i l

-- A result that lets the successors of a job go on.
abbrev pub tolerated : (optional : Bool) → JobStatus → Bool
tolerated optional JobStatus.done = true
tolerated optional JobStatus.failed = optional
tolerated optional JobStatus.timed_out = optional
tolerated optional _ = false

-- The job has finished, with a result that lets its successors go on.
abbrev pub passed : Graph → ℕ → List Event → Bool
passed g p [] = false
passed g p (started j ∷ l) = passed g p l
passed g p (finished j st d ∷ l) = if p == j then tolerated (g.node p).optional st else passed g p l
passed g p (failed j e ∷ l) = passed g p l
passed g p (resolved j ∷ l) = passed g p l

-- No failure has been reported.
abbrev pub no_failure : List Event → Bool
no_failure [] = true
no_failure (started j ∷ l) = no_failure l
no_failure (finished j st d ∷ l) = no_failure l
no_failure (failed j e ∷ l) = false
no_failure (resolved j ∷ l) = no_failure l

-- Whenever a job starts, all of its predecessors have passed, it has not started before, and no
-- failure has been reported.
abbrev pub IsOrdered : Graph → List Event → Type 0
IsOrdered g [] = Unit {0}
IsOrdered g (started i ∷ l) =
    ((p : ℕ) → p < g.size → Edge g p i → passed g p l ≡ true)
    × (starts i l ≡ 0)
    × (no_failure l ≡ true)
    × IsOrdered g l
IsOrdered g (finished j st d ∷ l) = IsOrdered g l
IsOrdered g (failed j e ∷ l) = IsOrdered g l
IsOrdered g (resolved j ∷ l) = IsOrdered g l
