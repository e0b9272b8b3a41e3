-- ===== src/Run/Threaded/Entries.antt =====
-- What one move of a thread does to the accounts of the run.
use sub0pipeline.Prelude.{
  ℕ, suc, AllBelow, AllBelow-append, AllBelow-mono, ◌+◌, ◌^◌, ◌≤◌, ◌<◌, ◌≡◌, ◌≢◌, ◌⊎◌, inl, inr,
  true, [], ◌∷◌, ◌==◌, arith, if◌then◌else◌, length, length-append, Option-cases, zero,
}
use sub0pipeline.Types.{status_of}
use sub0pipeline.Graph.{Graph}
use sub0pipeline.Run.{
  Run, is_fatal, enqueue_skip, has_fatal_failure, notify_dependencies, record_failure,
}
use sub0pipeline.Run.Base.{one_if, terminal}
use sub0pipeline.Run.Fatal.{status_of-tolerated}
use sub0pipeline.Run.Threaded.{
  below, Pc, Shared, Move, claim, start, store_status, report_job, record_job, make_ready, reject,
  fail_ready, record_only, report_rejection, skip_joins, skip_drains, read_next, queue_skip,
}
use sub0pipeline.Run.Threaded.Claims.{Own}
use sub0pipeline.Run.Threaded.Duties.{ending, shaped, spoilt}
use sub0pipeline.Run.Threaded.Moves.{guard}
use sub0pipeline.Graph.Build.{WellFormed}
use sub0pipeline.Run.Threaded.Claims.{is_main}
use sub0pipeline.Run.Threaded.Books.{PcBelow, uncounted, locks, has_failed, rejects}

below-AllBelow : (n : ℕ) → AllBelow n (below n)
below-AllBelow zero = tt
below-AllBelow (suc n) =
    AllBelow-append (suc n) (below n) _
      (AllBelow-mono n (suc n) (below n) (omega arith) (below-AllBelow n)) (omega arith, tt)

-- The jobs that a thread comes to name are jobs of the graph.
pub Move-PcBelow :
    {g : Graph} {i : ℕ} {m m' : Shared} {p p' : Pc}
    → Move g i m p m' p'
    → WellFormed g
    → i ≤ g.size
    → (i ≡ g.size → is_main p ≡ true)
    → AllBelow g.size m.run.skipped_jobs
    → PcBelow g.size p
    → PcBelow g.size p'
Move-PcBelow {g} {i} (report_job {o}) wf le main stacked named =
    let job : i < g.size = ground (arith, le, main) in
    elim (Option-cases (is_fatal (g.node i) o)) [
      | inl fine ↦ ground (arith, fine, wf.targets i job)
      | inr (c, ended) ↦ ground (arith, ended)
    ]
Move-PcBelow {g} {i} (record_job {e}) wf le main stacked named =
    let job : i < g.size = ground (arith, le, main) in (wf.targets i job, tt)
Move-PcBelow {g} (read_next {idx} h) wf le main stacked named =
    (wf.targets idx (ground (arith, h, stacked)), named.1)
Move-PcBelow {g} (record_only) wf le main stacked named = (below-AllBelow g.size, named.1)
Move-PcBelow {g} (report_rejection) wf le main stacked named = (below-AllBelow g.size, named.1)
Move-PcBelow mv wf le main stacked named = ground (arith, named)

enqueue_skip-AllBelow :
    (n s : ℕ) (r : Run)
    → s < n
    → AllBelow n r.skipped_jobs
    → AllBelow n (enqueue_skip s r).skipped_jobs
unfolding enqueue_skip
enqueue_skip-AllBelow n s r lt stacked =
    ground (arith, AllBelow-append n r.skipped_jobs (s ∷ []) stacked (lt, tt), stacked)

pub Move-stacked :
    {g : Graph} {i : ℕ} {m m' : Shared} {p p' : Pc}
    → Move g i m p m' p'
    → AllBelow g.size m.run.skipped_jobs
    → PcBelow g.size p
    → AllBelow g.size m'.run.skipped_jobs
unfolding notify_dependencies record_failure
Move-stacked {g} {m} (skip_joins {s} h h') stacked named =
    enqueue_skip-AllBelow g.size s m.run named.0 stacked
Move-stacked {g} {m} (skip_drains {s} h h') stacked named =
    enqueue_skip-AllBelow g.size s m.run named.0 stacked
Move-stacked {g} {m} (queue_skip {s}) stacked named =
    enqueue_skip-AllBelow g.size s m.run named.0.0 stacked
Move-stacked mv stacked named = ground (arith, guard mv, stacked)

pub Move-locks :
    {g : Graph} {i : ℕ} {m m' : Shared} {p p' : Pc}
    → Move g i m p m' p'
    → shaped p ≡ true
    → locks p ≤ one_if m.locked
    → locks p' + one_if m.locked ≡ locks p + one_if m'.locked
unfolding enqueue_skip notify_dependencies record_failure
Move-locks (start) loop one = ground (arith, one)
Move-locks (reject {k}) loop one = ground (arith, loop, one)
Move-locks mv loop one = ground (arith, guard mv, loop, one)

pub Move-has_failed :
    {g : Graph} {i : ℕ} {m m' : Shared} {p p' : Pc}
    → Move g i m p m' p'
    → shaped p ≡ true
    → (has_failed p ≡ true → has_fatal_failure m.run ≡ true)
    → (has_fatal_failure m.run ≡ true → has_fatal_failure m'.run ≡ true)
      × (has_failed p' ≡ true → has_fatal_failure m'.run ≡ true)
unfolding enqueue_skip notify_dependencies record_failure
Move-has_failed (start) loop failed = ground (arith, failed)
Move-has_failed mv loop failed = ground (arith, guard mv, failed, loop)

pub Move-recorded :
    {g : Graph} {i : ℕ} {m m' : Shared} {p p' : Pc} (j : ℕ)
    → Move g i m p m' p'
    → Own (g.node i) (m.run.status i) p
    → (has_failed p ≡ true → has_fatal_failure m.run ≡ true)
    → spoilt g j (m'.run.status j) ≡ true
    → (spoilt g j (m.run.status j) ≡ true
        → (has_fatal_failure m.run ≡ true) ⊎ (0 < (if j == i then ending p else 0) + rejects j p)
        → (has_fatal_failure m'.run ≡ true)
          ⊎ (0 < (if j == i then ending p' else 0) + rejects j p'))
      × ((spoilt g j (m.run.status j) ≡ true)
          ⊎ ((has_fatal_failure m'.run ≡ true)
              ⊎ (0 < (if j == i then ending p' else 0) + rejects j p')))
unfolding enqueue_skip notify_dependencies record_failure
Move-recorded {g} {i} j (report_job {o}) own failed bad =
    elim (Option-cases (is_fatal (g.node i) o)) [
      | inl fine ↦ ground (arith, fine, own, bad, status_of-tolerated (g.node i) o fine)
      | inr (c, ended) ↦ ground (arith, ended)
    ]
Move-recorded j mv own failed bad = ground (arith, guard mv, own, failed, bad)

-- The one job whose status a move changes.
abbrev pub changed : {g : Graph} {i : ℕ} {m m' : Shared} {p p' : Pc} → Move g i m p m' p' → ℕ
changed {i} (claim h) = i
changed {i} store_status = i
changed (make_ready {s} h) = s
changed (fail_ready {s} h) = s
changed (skip_joins {s} h h') = s
changed (skip_drains {s} h h') = s
changed (queue_skip {s}) = s
changed {i} _ = i

pub Move-changed :
    {g : Graph} {i : ℕ} {m m' : Shared} {p p' : Pc}
    → (mv : Move g i m p m' p') → i ≤ g.size
    → (i ≡ g.size → is_main p ≡ true)
    → PcBelow g.size p
    → ((j : ℕ) → j ≢ changed mv → m.run.status j ≡ m'.run.status j)
      × ((changed mv < g.size) ⊎ ((j : ℕ) → m.run.status j ≡ m'.run.status j))
unfolding enqueue_skip notify_dependencies record_failure
Move-changed (claim h) le main named = (λ j ne. ground (arith, ne), inl (ground (arith, le, main)))
Move-changed (store_status) le main named =
    (λ j ne. ground (arith, ne), inl (ground (arith, le, main)))
Move-changed (make_ready h) le main named = (λ j ne. ground (arith, ne), inl named.0)
Move-changed (fail_ready h) le main named = (λ j ne. ground (arith, ne), inl named.0)
Move-changed (skip_joins h h') le main named = (λ j ne. ground (arith, ne), inl named.0)
Move-changed (skip_drains h h') le main named = (λ j ne. ground (arith, ne), inl named.0)
Move-changed (queue_skip) le main named = (λ j ne. ground (arith, ne), inl named.0.0)
Move-changed mv le main named = (λ j ne. ground arith, inr (λ j. ground arith))

enqueue_skip-length :
    (s : ℕ) (r : Run)
    → length (enqueue_skip s r).skipped_jobs + one_if (terminal (r.status s))
      ≡ length r.skipped_jobs + one_if (terminal ((enqueue_skip s r).status s))
unfolding enqueue_skip
enqueue_skip-length s r = ground (arith, length-append r.skipped_jobs (s ∷ []))

pub Move-counted :
    {g : Graph} {i : ℕ} {m m' : Shared} {p p' : Pc}
    → (mv : Move g i m p m' p') → Own (g.node i) (m.run.status i) p
    → m.run.completed_count + 1 < 2 ^ 32
    → shaped p ≡ true
    → m'.run.completed_count
        + length m'.run.skipped_jobs
        + uncounted p'
        + one_if (terminal (m.run.status (changed mv)))
      ≡ m.run.completed_count
        + length m.run.skipped_jobs
        + uncounted p
        + one_if (terminal (m'.run.status (changed mv)))
unfolding enqueue_skip notify_dependencies record_failure status_of
Move-counted {m} (skip_joins {s} h h') own room loop = ground (arith, enqueue_skip-length s m.run)
Move-counted {m} (skip_drains {s} h h') own room loop = ground (arith, enqueue_skip-length s m.run)
Move-counted {m} (queue_skip {s}) own room loop = ground (arith, enqueue_skip-length s m.run)
Move-counted {g} {i} (report_job {o}) own room loop = elim (Option-cases (is_fatal (g.node i) o)) [
  | inl fine ↦ ground (arith, fine)
  | inr (c, ended) ↦ ground (arith, ended)
]
Move-counted mv own room loop = ground (arith, guard mv, own, room, loop)
