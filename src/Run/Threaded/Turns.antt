-- ===== src/Run/Threaded/Turns.antt =====
-- What one move of a thread does to the jobs that wait.
use sub0pipeline.Prelude.{
  ℕ, suc, ◌+◌, ◌≤◌, ◌<◌, ◌≡◌, refl, ◌≢◌, ◌⊎◌, inl, inr, true, false, ◌||◌, [], ◌∷◌, ◌==◌, arith,
  if◌then◌else◌, count, count-append, length, Option-cases, zero, ltb,
}
use sub0pipeline.Types.{status_of}
use sub0pipeline.Graph.{Graph}
use sub0pipeline.Graph.Degrees.{Edge}
use sub0pipeline.Run.{
  Run, is_pending, is_ready, is_fatal, enqueue_skip, notify_dependencies, record_failure,
}
use sub0pipeline.Run.Base.{pend, one_if}
use sub0pipeline.Run.Fatal.{is_fatal_lem, status_of-tolerated}
use sub0pipeline.Run.Log.{tolerated}
use sub0pipeline.Run.Threaded.{
  below, Pc, Shared, Move, start, report_job, record_job, reject, fail_ready, skip_joins,
  skip_drains, queue_skip,
}
use sub0pipeline.Run.Threaded.Claims.{holds, active, claims, unpaid, Own}
use sub0pipeline.Run.Threaded.Duties.{
  duty, at_start, ending, in_call, is_running, drains, shaped, on_root, spoilt,
}
use sub0pipeline.Run.Threaded.Moves.{guard}

count-below : (n j : ℕ) → count j (below n) ≡ (if ltb j n then 1 else 0)
count-below zero j = ground arith
count-below (suc n) j = ground (arith, count-below n j, count-append j (below n) (n ∷ []))

-- A job that waits stays in some thread's care.
pub Move-duty :
    {g : Graph} {i : ℕ} {m m' : Shared} {p p' : Pc} (j : ℕ)
    → Move g i m p m' p'
    → j < g.size
    → holds j p + (if j == i then active p else 0) + pend (m.run.status j) ≤ 1
    → (is_pending (m'.run.status j) || is_ready (m'.run.status j)) ≡ true
    → 0 < duty j p + m.accepted j + (if j == i then at_start p else 0)
    → 0 < duty j p' + m'.accepted j + (if j == i then at_start p' else 0)
unfolding enqueue_skip notify_dependencies record_failure
Move-duty j (start) lt one waits care = ground (arith, one, waits, care)
Move-duty {g} j mv lt one waits care =
    ground (arith, guard mv, one, waits, care, count-below g.size j)

-- Nothing becomes pending, and what becomes ready has a thread that submits it.
pub Move-fresh :
    {g : Graph} {i : ℕ} {m m' : Shared} {p p' : Pc} (j : ℕ)
    → Move g i m p m' p'
    → (is_pending (m'.run.status j) ≡ true → is_pending (m.run.status j) ≡ true)
      × (is_ready (m'.run.status j) ≡ true → (is_ready (m.run.status j) ≡ true) ⊎ (0 < duty j p'))
unfolding enqueue_skip notify_dependencies record_failure status_of
Move-fresh j (start) = ground arith
Move-fresh j mv = ground (arith, guard mv)

-- A job that is in a call has the status that says so.
pub Move-runs :
    {g : Graph} {i : ℕ} {m m' : Shared} {p p' : Pc} (j : ℕ)
    → Move g i m p m' p'
    → Own (g.node i) (m.run.status i) p
    → (is_running (m.run.status j) ≡ true → j ≡ i → 0 < in_call p)
    → is_running (m'.run.status j) ≡ true
    → (is_running (m.run.status j) ≡ true × (j ≢ i)) ⊎ ((j ≡ i) × (0 < in_call p'))
unfolding enqueue_skip notify_dependencies record_failure status_of
Move-runs j (start) own was now = ground (arith, own, was, now)
Move-runs j mv own was now = ground (arith, guard mv, own, was, now)

-- A pending job is claimed until it is made ready.
pub Move-claimable :
    {g : Graph} {i : ℕ} {m m' : Shared} {p p' : Pc} (j : ℕ)
    → Move g i m p m' p'
    → is_pending (m'.run.status j) ≡ true
    → (0 < claims j p → 0 < claims j p' + duty j p')
      × (m'.run.unmet_deps j ≡ 0 → (m.run.unmet_deps j ≡ 0) ⊎ (0 < claims j p'))
unfolding enqueue_skip notify_dependencies record_failure
Move-claimable j (start) wait = ground arith
Move-claimable j mv wait = ground (arith, guard mv, wait)

-- Who passes on a result does not change what the others owe, or skips the job.
pub Move-steady :
    {g : Graph} {i : ℕ} {m m' : Shared} {p p' : Pc} (j : ℕ)
    → Move g i m p m' p'
    → (0 < duty j p')
      ⊎ ((q : ℕ)
          → q ≢ i
          → tolerated (g.node q).optional (m.run.status q)
            ≡ tolerated (g.node q).optional (m'.run.status q))
unfolding enqueue_skip notify_dependencies record_failure
Move-steady j (fail_ready h) = inl (omega arith)
Move-steady j (start) = inr (λ q ne. refl)
Move-steady j mv = inr (λ q ne. ground (arith, guard mv, ne))

-- A move that lowers a dependency of a job pays for an edge, unless the job will be skipped.
pub Move-pays :
    {g : Graph} {i : ℕ} {m m' : Shared} {p p' : Pc} (j : ℕ)
    → Move g i m p m' p'
    → j < g.size
    → Own (g.node i) (m.run.status i) p
    → unpaid j (count j (g.node i).successors) (tolerated (g.node i).optional (m.run.status i)) p
      ≤ m.run.unmet_deps j
    → (0 < duty j p')
      ⊎ (m'.run.unmet_deps j
            + unpaid j
                (count j (g.node i).successors)
                (tolerated (g.node i).optional (m.run.status i))
                p
          ≤ m.run.unmet_deps j
            + unpaid j
                (count j (g.node i).successors)
                (tolerated (g.node i).optional (m'.run.status i))
                p')
unfolding enqueue_skip notify_dependencies record_failure
Move-pays j (reject) lt own enough = inl (omega arith)
Move-pays j (fail_ready h) lt own enough = inl (omega arith)
Move-pays {g} {i} j (report_job {o}) lt own enough = elim (Option-cases (is_fatal (g.node i) o)) [
  | inl fine ↦ ground (arith, fine, own)
  | inr (c, bad) ↦ ground (arith, bad, own, is_fatal_lem (g.node i) o c bad)
]
Move-pays j mv lt own enough = ground (arith, guard mv, own, enough)

enqueue_skip-spoilt :
    (g : Graph) (q s : ℕ) (r : Run)
    → spoilt g q ((enqueue_skip s r).status q) ≡ true
    → (count q r.skipped_jobs ≤ count q (enqueue_skip s r).skipped_jobs)
      × ((spoilt g q (r.status q) ≡ true) ⊎ (0 < count q (enqueue_skip s r).skipped_jobs))
unfolding enqueue_skip
enqueue_skip-spoilt g q s r bad = ground (arith, bad, count-append q r.skipped_jobs (s ∷ []))

-- A result that ends the run is passed on: the thread still has to, or the successors are skipped.
pub Move-doomed :
    {g : Graph} {i : ℕ} {m m' : Shared} {p p' : Pc} (j q : ℕ)
    → Move g i m p m' p'
    → j < g.size
    → Own (g.node i) (m.run.status i) p
    → Edge g q j
    → is_pending (m'.run.status j) ≡ true
    → spoilt g q (m'.run.status q) ≡ true
    → (spoilt g q (m.run.status q) ≡ true
        → 0 < count q m.run.skipped_jobs + (if q == i then ending p else 0)
        → 0 < count q m'.run.skipped_jobs + (if q == i then ending p' else 0) + duty j p')
      × ((spoilt g q (m.run.status q) ≡ true)
          ⊎ (0 < count q m'.run.skipped_jobs + (if q == i then ending p' else 0) + duty j p'))
unfolding notify_dependencies record_failure
Move-doomed j q (start) lt own edge wait bad = ground (arith, own, edge, wait, bad)
Move-doomed {g} {i} j q (report_job {o}) lt own edge wait bad =
    elim (Option-cases (is_fatal (g.node i) o)) [
      | inl fine ↦ ground (arith, fine, own, bad, status_of-tolerated (g.node i) o fine)
      | inr (c, ended) ↦ ground (arith, ended)
    ]
Move-doomed {g} {i} {m} j q (record_job {e}) lt own edge wait bad =
    ground (arith, own, edge, wait, bad)
Move-doomed {g} {m} j q (skip_joins {s} h h') lt own edge wait bad =
    let (grows, was) = enqueue_skip-spoilt g q s m.run bad in ground (arith, grows, was)
Move-doomed {g} {m} j q (skip_drains {s} h h') lt own edge wait bad =
    let (grows, was) = enqueue_skip-spoilt g q s m.run bad in ground (arith, grows, was)
Move-doomed {g} {m} j q (queue_skip {s}) lt own edge wait bad =
    let (grows, was) = enqueue_skip-spoilt g q s m.run bad in ground (arith, grows, was)
Move-doomed {g} {i} {m} j q mv lt own edge wait bad =
    ground (arith, guard mv, own, edge, wait, bad, count-below g.size j)

pub Move-drains :
    {g : Graph} {i : ℕ} {m m' : Shared} {p p' : Pc}
    → Move g i m p m' p'
    → shaped p ≡ true
    → drains p ≤ one_if m.run.draining_skips
    → (0 < length m.run.skipped_jobs → m.run.draining_skips ≡ true)
    → (drains p' + one_if m.run.draining_skips ≡ drains p + one_if m'.run.draining_skips)
      × (0 < length m'.run.skipped_jobs → m'.run.draining_skips ≡ true)
unfolding enqueue_skip notify_dependencies record_failure
Move-drains (start) loop one watched = ground (arith, one, watched)
Move-drains (reject {k}) loop one watched = ground (arith, loop, one, watched)
Move-drains mv loop one watched = ground (arith, guard mv, one, watched)

pub Move-shaped :
    {g : Graph} {i : ℕ} {m m' : Shared} {p p' : Pc}
    → Move g i m p m' p'
    → shaped p ≡ true
    → shaped p' ≡ true
Move-shaped {g} {i} (report_job {o}) loop = elim (Option-cases (is_fatal (g.node i) o)) [
  | inl fine ↦ ground (arith, fine)
  | inr (c, ended) ↦ ground (arith, ended)
]
Move-shaped mv loop = ground (arith, loop)

pub Move-on_root :
    {g : Graph} {i : ℕ} {m m' : Shared} {p p' : Pc}
    → Move g i m p m' p'
    → i ≢ g.size
    → on_root p ≡ false
    → on_root p' ≡ false
Move-on_root {g} {i} (report_job {o}) ne job = elim (Option-cases (is_fatal (g.node i) o)) [
  | inl fine ↦ ground (arith, fine)
  | inr (c, ended) ↦ ground (arith, ended)
]
Move-on_root mv ne job = ground (arith, job, ne)
