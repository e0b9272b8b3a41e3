-- ===== src/Run/Finish.antt =====
-- Calling a job taken from the worklist, and finishing it, in a run that no failure has ended.
use mathlib.Core.Path.{subst}
use sub0pipeline.Prelude.{
  ℕ, suc, ◌+◌, ◌≤◌, ◌<◌, ◌≡◌, ap, ◌∙◌, ◌⊎◌, inl, inr, Bool, true, false, List, [], ◌∷◌, ◌==◌, arith,
  if◌then◌else◌, update, length, count, AllBelow, total, ℕ_discrete,
}
use sub0pipeline.Types.{JobStatus}
use sub0pipeline.Graph.{Graph}
use sub0pipeline.Graph.Degrees.{Edge, degree_close, degree_zero, degree_pos}
use sub0pipeline.Graph.Build.{WellFormed}
use sub0pipeline.Run.{started, Run, settle, report, notify_dependencies, emit}
use sub0pipeline.Run.Log.{passed, tolerated, no_failure}
use sub0pipeline.Run.Base.{Base, Listed, terminal, pend, one_if, total_status, counted-le}
use sub0pipeline.Run.Blocked.{Blocked, next, after, demand, AllBlocked, Idle}
use sub0pipeline.Run.Live.{Live, live}

-- A status that statusOf gives.
abbrev pub ended : JobStatus → Bool
ended JobStatus.done = true
ended JobStatus.failed = true
ended JobStatus.timed_out = true
ended JobStatus.cancelled = true
ended _ = false

-- The job `x` is taken from the worklist and its body is called.
abbrev pub begun : ℕ → List ℕ → Run → Run
begun x rest r =
    emit (started x)
      (record r { inline_ready = rest; status = update r.status x JobStatus.running })

module _ (g : Graph) (b : ℕ) (wf : WellFormed g) (x : ℕ) (rest : List ℕ) (r : Run)
    (h : Live g (suc b) [] r) (e : r.inline_ready ≡ x ∷ rest)
    (was : r.status x ≡ JobStatus.ready) where
  x_lt : x < g.size
  x_lt = (subst (AllBelow g.size) e h.base.queued).0

  -- All predecessors of a ready job have passed.
  preds_passed : (p : ℕ) → p < g.size → Edge g p x → passed g p r.events ≡ true
  preds_passed p l edge =
      let closed =
        degree_zero g (live r) p x (omega (arith, h.lowered x x_lt, h.freed x x_lt was)) l edge in
      h.through p l (ground (arith, closed))

  sum :
      (w : JobStatus → ℕ) (st : JobStatus)
      → total g.size (λ i. w (r.status i)) + w st
        ≡ total g.size (λ i. w (update r.status x st i)) + w (r.status x)
  sum w st =
      let at = total_status g b w r.status (update r.status x st) x x_lt (λ i ne. ground arith) in
      ground (arith, at)

  begun-Base : Base g b (begun x rest r)
  begun-Base = record {
    stacked = h.base.stacked;
    queued = (subst (AllBelow g.size) e h.base.queued).1;
    counted = ground (arith, h.base.counted, sum (λ s. one_if (terminal s)) JobStatus.running, was);
    once = λ i l. ground (arith, h.base.once i l, was);
    calls = λ i l. ground (arith, h.base.calls i l, was);
    ordered = (preds_passed, ground (arith, h.base.calls x x_lt, was), h.quiet, h.base.ordered);
    room = ground (arith, h.base.room, sum pend JobStatus.running, was, ap length e);
  }

module _ (g : Graph) (b : ℕ) (wf : WellFormed g) where
  settle-Base :
      (x : ℕ) (st : JobStatus) (r : Run)
      → x < g.size
      → r.status x ≡ JobStatus.running
      → ended st ≡ true
      → Base g b r
      → Base g b (settle g x st r)
  unfolding settle report notify_dependencies
  settle-Base x st r lt was over base =
      let f' = update r.status x st in
      let sum_terminal =
        total_status g b (λ s. one_if (terminal s)) r.status f' x lt (λ i ne. ground arith) in
      let sum_pend = total_status g b pend r.status f' x lt (λ i ne. ground arith) in
      let fits = counted-le g b r base in
      record {
        stacked = ground (arith, base.stacked);
        queued = ground (arith, base.queued);
        counted = ground (arith, base.counted, sum_terminal, most, wf.fits);
        once = λ i l. ground (arith, base.once i l);
        calls = λ i l. ground (arith, base.calls i l, was);
        ordered = ground (arith, base.ordered);
        room = ground (arith, base.room, sum_pend);
      }
    where
      most : r.completed_count + length r.skipped_jobs ≤ g.size
      most = counted-le g b r base

module _ (g : Graph) (b : ℕ) (wf : WellFormed g) (x : ℕ) (rest : List ℕ) (r : Run)
    (h : Live g (suc b) [] r) (e : r.inline_ready ≡ x ∷ rest) (was : r.status x ≡ JobStatus.ready)
    (st : JobStatus) (over : ended st ≡ true) where
  pub job_lt : x < g.size
  job_lt = x_lt g b wf x rest r h e was

  abbrev pub after_job : Run
  after_job = settle g x st (begun x rest r)

  -- What `settle` shows of the state.
  pub status_after : (i : ℕ) → after_job.status i ≡ update r.status x st i
  unfolding settle report notify_dependencies
  status_after i = ground arith

  pub record Kept : Type 0 where
    pub unmet : after_job.unmet_deps ≡ r.unmet_deps
    pub fatal : after_job.fatal ≡ r.fatal
    pub skips : after_job.skipped_jobs ≡ r.skipped_jobs
    pub draining : after_job.draining_skips ≡ r.draining_skips
    pub worklist : after_job.inline_ready ≡ rest
    pub passing :
        (p : ℕ)
        → passed g p after_job.events
          ≡ (if p == x then tolerated (g.node p).optional st else passed g p r.events)
    pub quiet : no_failure after_job.events ≡ no_failure r.events

  pub kept : Kept
  unfolding settle report notify_dependencies
  kept = record {
    unmet = ground arith;
    fatal = ground arith;
    skips = ground arith;
    draining = ground arith;
    worklist = ground arith;
    passing = λ p. ground arith;
    quiet = ground arith;
  }

  pub after-Base : Base g b after_job
  after-Base =
      settle-Base g b wf x st (begun x rest r) job_lt (ground arith) over
        (begun-Base g b wf x rest r h e was)

  pub after-Listed : Listed g [] after_job
  after-Listed i l now =
      ground
        (arith, h.listed i l, now, status_after i, ap (count i) e, ap (count i) kept.worklist, over)

  -- A job that did not end the run: its successors are still to be released.
  pub after-Live :
      tolerated (g.node x).optional st ≡ true → Live g b (g.node x).successors after_job
  after-Live good = record {
    base = after-Base;
    listed = after-Listed;
    calm = kept.draining ∙ h.calm;
    unfailed = ground (arith, kept.fatal, h.unfailed);
    empty = kept.skips ∙ h.empty;
    brief = wf.short x job_lt;
    lowered = λ i l.
        ap (λ (u : ℕ → ℕ). u i) kept.unmet
        ∙ omega (
          arith,
          h.lowered i l,
          degree_close g (live r) (live after_job) x i job_lt (ground (arith, was))
              (ground (arith, status_after x, good)) (λ p ne. ground (arith, status_after p)),
        );
    tidy = λ i l. ground (arith, h.tidy i l, status_after i, good);
    freed = λ i l now.
        ap (λ (u : ℕ → ℕ). u i) kept.unmet ∙ ground (arith, h.freed i l, now, status_after i, good);
    held = λ i l now. held' i l now;
    through = λ p l now. kept.passing p ∙ ground (arith, h.through p l, now, status_after p, good);
    fine = λ p l now. ground (arith, h.fine p l, now, status_after p, good);
    quiet = kept.quiet ∙ h.quiet;
  }
    where
      held' :
          (i : ℕ)
          → i < g.size
          → after_job.status i ≡ JobStatus.pending
          → (0 < after_job.unmet_deps i) ⊎ ((g.node i).on_demand ≡ true)
      held' i l now =
          rw (ap (λ (u : ℕ → ℕ). u i) kept.unmet)
            (h.held i l (ground (arith, now, status_after i, over)))

  -- A pending job waits for a job that is not over, for `x`, or for a trigger.
  pub after-AllBlocked : AllBlocked g (g.node x).successors after_job
  after-AllBlocked i l now = waits (h.held i l (ground (arith, now, status_after i, over)))
    where
      waits :
          (0 < r.unmet_deps i) ⊎ ((g.node i).on_demand ≡ true)
          → Blocked g (g.node x).successors after_job i
      waits (inr d) = demand d
      waits (inl c) =
          let (p, pl, up, edge) = degree_pos g (live r) i (omega (arith, h.lowered i l)) in
          elim (ℕ_discrete x p) [
            | yes same ↦ next (rw (← same) at edge)
            | no other ↦ after p pl edge (ground (arith, h.tidy p pl, up, status_after p))
          ]

  pub after-Idle : Idle g after_job
  after-Idle i l = ground (arith, h.tidy i l, status_after i, over)
