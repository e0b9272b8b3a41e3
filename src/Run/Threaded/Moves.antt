-- ===== src/Run/Threaded/Moves.antt =====
-- A move of one thread keeps each field of the invariant.
use sub0pipeline.Prelude.{
  ℕ, ◌≤◌, ◌<◌, ◌≡◌, refl, ◌≢◌, Bool, true, false, ◌||◌, [], ◌∷◌, arith, if◌then◌else◌, count,
  Option, none, some, Option-cases, inl, inr, dec32, update,
}
use sub0pipeline.Types.{JobStatus, Expected, PipelineError, status_of, pending, ready}
use sub0pipeline.Graph.{Graph, Node}
use sub0pipeline.Run.{
  is_pending, is_ready, is_fatal, enqueue_skip, has_fatal_failure, notify_dependencies,
  record_failure,
}
use sub0pipeline.Run.Fatal.{is_fatal_lem, status_of-tolerated}
use sub0pipeline.Run.Log.{tolerated}
use sub0pipeline.Run.Threaded.{
  Pc, failing, releasing, within, Shared, Move, call_back, dispatch_skips, claim, claim_lost,
  report_job, release_skips, lower_last, lower_one, make_ready, not_pending, reject, fail_ready,
  fail_other, skip_joins, skip_drains, read_next, drain_end, queue_skip, lock_again, root_skips,
  abandon, after_finish,
}
use sub0pipeline.Run.Threaded.Claims.{unpaid, Own}

-- The premise of a move, for the catch-all clauses below, which cannot name it.
abbrev pub Guard : {g : Graph} {i : ℕ} {m m' : Shared} {p p' : Pc} → Move g i m p m' p' → Type 0
Guard {i} {m} (call_back h) = 0 < m.accepted i
Guard {i} {m} (claim h) = m.run.status i ≡ ready
Guard {i} {m} (claim_lost h) = m.run.status i ≢ ready
Guard {m} (not_pending {s} h) = m.run.status s ≢ pending
Guard {m} (fail_other {s} h) = m.run.status s ≢ ready
Guard {m} (skip_joins h h') = m.run.draining_skips ≡ true
Guard {m} (skip_drains h h') = (m.locked ≡ false) × (m.run.draining_skips ≡ false)
Guard {m} (lock_again h) = m.locked ≡ false
Guard {m} (dispatch_skips h) = has_fatal_failure m.run ≡ true
Guard {m} (release_skips h) = has_fatal_failure m.run ≡ true
Guard {m} (root_skips h) = has_fatal_failure m.run ≡ true
Guard {m} (read_next {idx} {rest} h) = m.run.skipped_jobs ≡ idx ∷ rest
Guard {m} (drain_end h) = m.run.skipped_jobs ≡ []
Guard {m} (lower_last {s} h) = dec32 (m.run.unmet_deps s) ≡ 0
Guard {m} (lower_one {s} h) = dec32 (m.run.unmet_deps s) ≢ 0
Guard {m} (make_ready {s} h) = m.run.status s ≡ pending
Guard {m} (fail_ready {s} h) = m.run.status s ≡ ready
Guard _ = Unit

pub guard : {g : Graph} {i : ℕ} {m m' : Shared} {p p' : Pc} (mv : Move g i m p m' p') → Guard mv
guard (call_back h) = h
guard (claim h) = h
guard (claim_lost h) = h
guard (not_pending h) = h
guard (fail_other h) = h
guard (skip_joins h h') = h'
guard (skip_drains h h') = (h, h')
guard (lock_again h) = h
guard (dispatch_skips h) = h
guard (release_skips h) = h
guard (root_skips h) = h
guard (read_next h) = h
guard (drain_end h) = h
guard (lower_last h) = h
guard (lower_one h) = h
guard (make_ready h) = h
guard (fail_ready h) = h
guard _ = tt

-- A passed job keeps its status, but for the thread that stores it.
pub Move-status :
    {g : Graph} {i : ℕ} {m m' : Shared} {p p' : Pc}
    → Move g i m p m' p'
    → Own (g.node i) (m.run.status i) p
    → (j : ℕ) → tolerated (g.node j).optional (m.run.status j) ≡ true
    → m'.run.status j ≡ m.run.status j
unfolding enqueue_skip notify_dependencies record_failure
Move-status (call_back h) own j good = refl
Move-status mv own j good = ground (arith, guard mv)

-- A job that is pending or ready has no thread whose place says more of its status.
pub Own-waiting :
    (nd : Node) (st st' : JobStatus) (q : Pc)
    → (is_pending st || is_ready st) ≡ true
    → Own nd st q
    → Own nd st' q
unfolding status_of
Own-waiting nd st st' (within c k) h own = Own-waiting nd st st' k h own
Own-waiting nd st st' q h own = ground (arith, own, h)

unpaid_least :
    (nd : Node) (st : JobStatus) (s full : ℕ) (q : Pc)
    → Own nd st q
    → (if tolerated nd.optional st then 0 else full) ≤ unpaid s full (tolerated nd.optional st) q
unpaid_least nd st s full (within c k) own = omega (arith, unpaid_least nd st s full k own)
unpaid_least nd st s full q own = ground (arith, own)

abandoned :
    (g : Graph) (i s full : ℕ) (passed : Bool)
    → unpaid s full passed (abandon g i) ≡ (if passed then 0 else full)
abandoned g i s full passed = ground arith

pub unpaid_mono :
    (s full : ℕ) (q : Pc) (passed passed' : Bool)
    → (passed ≡ true → passed' ≡ true)
    → unpaid s full passed' q ≤ unpaid s full passed q
unpaid_mono s full (within c k) passed passed' h =
    omega (arith, unpaid_mono s full k passed passed' h)
unpaid_mono s full q passed passed' h = ground (arith, h)

-- The job of the thread itself keeps the status that lets its successors go on.
pub Move-own :
    {g : Graph} {i : ℕ} {m m' : Shared} {p p' : Pc}
    → Move g i m p m' p'
    → Own (g.node i) (m.run.status i) p
    → Own (g.node i) (m'.run.status i) p'
unfolding enqueue_skip notify_dependencies record_failure
Move-own {g} {i} (report_job {o}) own = elim (Option-cases (is_fatal (g.node i) o)) [
  | inl fine ↦ ground (arith, fine, status_of-tolerated (g.node i) o fine)
  | inr (c, bad) ↦ ground (arith, bad, is_fatal_lem (g.node i) o c bad)
]
Move-own {g} {i} {m} (make_ready {k} h) own =
    ground (arith, h, Own-waiting (g.node i) (m.run.status i) ready k)
Move-own {g} {i} {m} (fail_ready {k} h) own =
    ground (arith, h, Own-waiting (g.node i) (m.run.status i) JobStatus.failed k)
Move-own {g} {i} {m} (skip_joins {k} h h') own =
    ground (arith, Own-waiting (g.node i) (m.run.status i) JobStatus.skipped k)
Move-own {g} {i} {m} (skip_drains {k} h h') own =
    ground (arith, Own-waiting (g.node i) (m.run.status i) JobStatus.skipped k)
Move-own {g} {i} {m} (queue_skip {k}) own =
    ground (arith, Own-waiting (g.node i) (m.run.status i) JobStatus.skipped k)
Move-own mv own = ground (arith, guard mv)

-- The other jobs are as they were for their threads.
pub Move-others :
    {g : Graph} {i : ℕ} {m m' : Shared} {p p' : Pc}
    → Move g i m p m' p'
    → (j : ℕ) (q : Pc) → j ≢ i
    → Own (g.node j) (m.run.status j) q
    → Own (g.node j) (m'.run.status j) q
unfolding enqueue_skip notify_dependencies record_failure
Move-others (call_back h) j q ne own = own
Move-others {g} {m} mv j q ne own = ground (
  arith,
  guard mv,
  Own-waiting (g.node j) (m.run.status j) ready q,
  Own-waiting (g.node j) (m.run.status j) JobStatus.failed q,
  Own-waiting (g.node j) (m.run.status j) JobStatus.skipped q,
)

after_finish-unpaid :
    (g : Graph) (i : ℕ) (o : Expected (Unit {0})) (s : ℕ) (passed : Bool)
    → unpaid s (count s (g.node i).successors) passed (after_finish g i o)
      ≤ count s (g.node i).successors
after_finish-unpaid g i o s passed = by_error (is_fatal (g.node i) o)
  where
    by_error :
        (e : Option PipelineError)
        → unpaid s
            (count s (g.node i).successors)
            passed
            (elim e [ none ↦ releasing (g.node i).successors | some e ↦ failing e ])
          ≤ count s (g.node i).successors
    by_error none = ground arith
    by_error (some e) = ground arith

-- No move makes a thread owe more edges.
pub Move-unpaid :
    {g : Graph} {i : ℕ} {m m' : Shared} {p p' : Pc} (s : ℕ)
    → Move g i m p m' p'
    → Own (g.node i) (m.run.status i) p
    → unpaid s (count s (g.node i).successors) (tolerated (g.node i).optional (m'.run.status i)) p'
      ≤ unpaid s (count s (g.node i).successors) (tolerated (g.node i).optional (m.run.status i)) p
unfolding enqueue_skip notify_dependencies record_failure
Move-unpaid {g} {i} s (report_job {o} {done}) own = after_finish-unpaid g i o s _
Move-unpaid {g} {i} {m} s (reject {k}) own = omega (
  arith,
  unpaid_least (g.node i) (m.run.status i) s (count s (g.node i).successors) k own,
  abandoned g i s (count s (g.node i).successors) (tolerated (g.node i).optional (m.run.status i)),
)
Move-unpaid {g} {i} {m} s (fail_ready {s = x} {k} h) own = omega (
  arith,
  unpaid_mono s (count s (g.node i).successors) k (tolerated (g.node i).optional (m.run.status i))
      (tolerated (g.node i).optional (update m.run.status x JobStatus.failed i))
      (ready-tolerated x h),
)
  where
    ready-tolerated :
        (x : ℕ)
        → m.run.status x ≡ ready
        → tolerated (g.node i).optional (m.run.status i) ≡ true
        → tolerated (g.node i).optional (update m.run.status x JobStatus.failed i) ≡ true
    ready-tolerated x h good = ground (arith, h, good)
Move-unpaid s mv own = ground (arith, guard mv)
