-- ===== src/Run/Threaded/Measure.antt =====
-- How many steps a threaded run can still take, at most.
use sub0pipeline.Prelude.{
  ℕ, suc, zero, ◌+◌, ◌-◌, ◌≤◌, ◌<◌, ◌≡◌, refl, ◌≢◌, ◌⊎◌, inl, inr, true, List, [], ◌∷◌, ◌++◌, arith,
  length, Option-cases,
}
use sub0pipeline.Types.{JobStatus, status_of, pending, ready}
use sub0pipeline.Graph.{Graph}
use sub0pipeline.Run.{Run, is_fatal, enqueue_skip, notify_dependencies, record_failure}
use sub0pipeline.Run.Threaded.{
  Pc, idle, entered, checked, claimed, calling, returned, stored, counted, failing, recording,
  releasing, deciding, claiming, submitting, rejected, recording_rejection, counting_rejection,
  reporting_rejection, skip_each, skipping, skip_reading, skip_queueing, skip_reporting,
  skip_locking, rooting, awaiting_all, over, within, Call, Shared, Move, call_back, report_job,
  accept, skip_joins, skip_drains, queue_skip, below,
}
use sub0pipeline.Run.Threaded.Moves.{guard}
use sub0pipeline.Run.Threaded.Entries.{changed}
use sub0pipeline.Run.Threaded.Claims.{is_main}
use sub0pipeline.Run.Threaded.Books.{PcBelow}

-- Six steps are enough for one entry of a list of successors.
abbrev span : List ℕ → ℕ
span [] = 0
span (s ∷ rest) = 6 + span rest

-- A callback that is accepted.
abbrev accepted_cost : Graph → ℕ → ℕ
accepted_cost g i = 13 + span (g.node i).successors

-- submissionFailed
abbrev rejected_cost : Graph → ℕ
rejected_cost g = 5 + span (below g.size)

-- A submission, with what it leads to.
abbrev submit_cost : Graph → ℕ → ℕ
submit_cost g s = accepted_cost g s + rejected_cost g + 2

-- An entry of skipped_.
abbrev skip_cost : Graph → ℕ → ℕ
skip_cost g idx = 4 + length (g.node idx).successors

abbrev pub status_cost : Graph → ℕ → JobStatus → ℕ
status_cost g j pending = skip_cost g j + submit_cost g j
status_cost g j ready = skip_cost g j
status_cost g j _ = 0

abbrev times : ℕ → ℕ → ℕ
times zero a = 0
times (suc n) a = a + times n a

abbrev pub queue_cost : Graph → ℕ → ℕ → ℕ
queue_cost g j n = times n (accepted_cost g j)

abbrev pub skips_cost : Graph → List ℕ → ℕ
skips_cost g [] = 0
skips_cost g (idx ∷ rest) = skip_cost g idx + skips_cost g rest

abbrev roots_cost : Graph → List ℕ → ℕ
roots_cost g [] = 2
roots_cost g (s ∷ rest) = 6 + submit_cost g s + roots_cost g rest

abbrev call_cost : Graph → Call → ℕ
call_cost g (deciding s) = 5
call_cost g (claiming s) = 4
call_cost g (submitting s) = submit_cost g s
call_cost g (rejected s) = rejected_cost g
call_cost g (recording_rejection s b) = 4 + span (below g.size)
call_cost g (counting_rejection s) = 3 + span (below g.size)
call_cost g (reporting_rejection s d) = 2 + span (below g.size)
call_cost g (skip_each rest) = 1 + span rest
call_cost g (skipping s) = 5
call_cost g skip_reading = 4
call_cost g (skip_queueing idx rest) = 7 + length rest
call_cost g (skip_reporting idx d) = 6
call_cost g skip_locking = 5

-- What thread `i` has before it.
abbrev pub left : Graph → ℕ → Pc → ℕ
left g i idle = 0
left g i over = 0
left g i awaiting_all = 1
left g i (rooting rest) = roots_cost g rest
left g i (releasing rest) = 1 + span rest
left g i (within c k) = call_cost g c + left g i k
left g i entered = 12 + span (g.node i).successors
left g i checked = 11 + span (g.node i).successors
left g i claimed = 10 + span (g.node i).successors
left g i calling = 9 + span (g.node i).successors
left g i (returned o) = 8 + span (g.node i).successors
left g i (stored o) = 7 + span (g.node i).successors
left g i (counted o d) = 6 + span (g.node i).successors
left g i (failing e) = 5 + span (g.node i).successors
left g i (recording e) = 4 + span (g.node i).successors

skips-append :
    (g : Graph) (xs : List ℕ) (s : ℕ)
    → skips_cost g (xs ++ s ∷ []) ≡ skips_cost g xs + skip_cost g s
skips-append g [] s = omega arith
skips-append g (x ∷ xs) s = omega (arith, skips-append g xs s)

times_pred : (n a : ℕ) → 0 < n → times n a ≡ a + times (n - 1) a
times_pred zero a h = absurd (omega arith)
times_pred (suc n) a h = ground arith

enqueue_skip-cost :
    (g : Graph) (s : ℕ) (r : Run)
    → skips_cost g (enqueue_skip s r).skipped_jobs + status_cost g s ((enqueue_skip s r).status s)
      ≤ skips_cost g r.skipped_jobs + status_cost g s (r.status s)
unfolding enqueue_skip
enqueue_skip-cost g s r = ground (arith, skips-append g r.skipped_jobs s)

-- The job of which a move changes the number of accepted callbacks.
abbrev pub submitted : {g : Graph} {i : ℕ} {m m' : Shared} {p p' : Pc} → Move g i m p m' p' → ℕ
submitted (accept {s}) = s
submitted {i} _ = i

-- Every move makes what is left smaller.
pub Move-left :
    {g : Graph} {i : ℕ} {m m' : Shared} {p p' : Pc}
    → (mv : Move g i m p m' p')
    → left g i p'
        + skips_cost g m'.run.skipped_jobs
        + status_cost g (changed mv) (m'.run.status (changed mv))
        + queue_cost g (submitted mv) (m'.accepted (submitted mv))
      < left g i p
        + skips_cost g m.run.skipped_jobs
        + status_cost g (changed mv) (m.run.status (changed mv))
        + queue_cost g (submitted mv) (m.accepted (submitted mv))
unfolding notify_dependencies record_failure status_of
Move-left {g} {i} {m} (call_back h) =
    ground (arith, h, times_pred (m.accepted i) (accepted_cost g i) h)
Move-left {g} {i} (report_job {o}) = elim (Option-cases (is_fatal (g.node i) o)) [
  | inl fine ↦ ground (arith, fine)
  | inr (c, ended) ↦ ground (arith, ended)
]
Move-left {g} {m} (skip_joins {s} h h') = ground (arith, enqueue_skip-cost g s m.run)
Move-left {g} {m} (skip_drains {s} h h') = ground (arith, enqueue_skip-cost g s m.run)
Move-left {g} {m} (queue_skip {s}) = ground (arith, enqueue_skip-cost g s m.run)
Move-left mv = ground (arith, guard mv)

pub Move-submitted :
    {g : Graph} {i : ℕ} {m m' : Shared} {p p' : Pc}
    → (mv : Move g i m p m' p') → i ≤ g.size
    → (i ≡ g.size → is_main p ≡ true)
    → PcBelow g.size p
    → ((j : ℕ) → j ≢ submitted mv → m.accepted j ≡ m'.accepted j)
      × ((submitted mv < g.size) ⊎ ((j : ℕ) → m.accepted j ≡ m'.accepted j))
Move-submitted (call_back h) le main named =
    (λ j ne. ground (arith, ne), inl (ground (arith, le, main)))
Move-submitted (accept) le main named = (λ j ne. ground (arith, ne), inl named.0)
Move-submitted mv le main named = (λ j ne. refl, inr (λ j. refl))
