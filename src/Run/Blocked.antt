-- ===== src/Run/Blocked.antt =====
-- Why a pending job has not been skipped yet: while skips are worked off, every pending job is in
-- line to be skipped, waits for a job that is not over, or is an on-demand job.
use sub0pipeline.Prelude.{
  ℕ, ◌<◌, ◌≡◌, refl, ap, ◌∙◌, inl, inr, Bool, true, false, List, [], ◌∷◌, ◌++◌, arith, inc32, count,
  count-append, Bool-cases, ℕ_discrete,
}
use sub0pipeline.Types.{JobStatus}
use sub0pipeline.Graph.{Graph}
use sub0pipeline.Graph.Degrees.{Edge}
use sub0pipeline.Run.{Run, enqueue_skip, enqueue_skips, report, skip_one, notify_dependencies}
use sub0pipeline.Run.Base.{terminal}

-- `todo` are the jobs that are still to be handed to enqueueSkip.
pub data Blocked (g : Graph) (todo : List ℕ) (r : Run) (i : ℕ) : Type 0 where
  next : 0 < count i todo → Blocked g todo r i
  behind : (y : ℕ) → 0 < count y r.skipped_jobs → Edge g y i → Blocked g todo r i
  after : (p : ℕ) → p < g.size → Edge g p i → terminal (r.status p) ≡ false → Blocked g todo r i
  demand : (g.node i).on_demand ≡ true → Blocked g todo r i

abbrev pub AllBlocked : Graph → List ℕ → Run → Type 0
AllBlocked g todo r = (i : ℕ) → i < g.size → r.status i ≡ JobStatus.pending → Blocked g todo r i

-- No body is being called.
abbrev pub busy : JobStatus → Bool
busy JobStatus.running = true
busy JobStatus.awaiting = true
busy _ = false

abbrev pub Idle : Graph → Run → Type 0
Idle g r = (i : ℕ) → i < g.size → busy (r.status i) ≡ false

-- What skipping leaves alone.
pub record Frame (r r' : Run) : Type 0 where
  pub fatal : r'.fatal ≡ r.fatal
  pub inline_ready : r'.inline_ready ≡ r.inline_ready
  pub unmet_deps : r'.unmet_deps ≡ r.unmet_deps
  pub draining_skips : r'.draining_skips ≡ r.draining_skips
  pub readies : (i : ℕ) → r'.status i ≡ JobStatus.ready → r.status i ≡ JobStatus.ready
  pub over : (i : ℕ) → terminal (r.status i) ≡ true → r'.status i ≡ r.status i

pub Frame-refl : (r : Run) → Frame r r
Frame-refl r = record {
  fatal = refl;
  inline_ready = refl;
  unmet_deps = refl;
  draining_skips = refl;
  readies = λ i e. e;
  over = λ i h. refl;
}

pub Frame-trans : {r s t : Run} → Frame r s → Frame s t → Frame r t
Frame-trans a b = record {
  fatal = b.fatal ∙ a.fatal;
  inline_ready = b.inline_ready ∙ a.inline_ready;
  unmet_deps = b.unmet_deps ∙ a.unmet_deps;
  draining_skips = b.draining_skips ∙ a.draining_skips;
  readies = λ i e. a.readies i (b.readies i e);
  over = λ i h. b.over i (ap terminal (a.over i h) ∙ h) ∙ a.over i h;
}

pub enqueue_skip-Frame : (s : ℕ) (r : Run) → Frame r (enqueue_skip s r)
unfolding enqueue_skip
enqueue_skip-Frame s r = record {
  fatal = ground arith;
  inline_ready = ground arith;
  unmet_deps = ground arith;
  draining_skips = ground arith;
  readies = λ i e. ground arith;
  over = λ i h. ground arith;
}

enqueue_skip-completed : (s : ℕ) (r : Run) → (enqueue_skip s r).completed_count ≡ r.completed_count
unfolding enqueue_skip
enqueue_skip-completed s r = ground arith

pub enqueue_skips-Frame :
    (ss : List ℕ) (r : Run)
    → Frame r (enqueue_skips ss r) × ((enqueue_skips ss r).completed_count ≡ r.completed_count)
unfolding enqueue_skips
enqueue_skips-Frame [] r = (Frame-refl r, refl)
enqueue_skips-Frame (s ∷ ss) r =
    let (frame, same) = enqueue_skips-Frame ss (enqueue_skip s r) in
    (Frame-trans (enqueue_skip-Frame s r) frame, same ∙ enqueue_skip-completed s r)

module _ (g : Graph) where
  enqueue_skip-Blocked :
      (s : ℕ) (ss : List ℕ) (r : Run) (i : ℕ)
      → (enqueue_skip s r).status i ≡ JobStatus.pending
      → Blocked g (s ∷ ss) r i
      → Blocked g ss (enqueue_skip s r) i
  unfolding enqueue_skip
  enqueue_skip-Blocked s ss r i e (next c) = next (ground arith)
  enqueue_skip-Blocked s ss r i e (behind y c edge) =
      behind y (ground (arith, count-append y r.skipped_jobs (s ∷ []))) edge
  enqueue_skip-Blocked s ss r i e (after p lt edge up) =
      elim (Bool-cases (terminal ((enqueue_skip s r).status p))) [
        | inl over ↦ behind p (ground (arith, over, count-append p r.skipped_jobs (s ∷ []))) edge
        | inr still ↦ after p lt edge still
      ]
  enqueue_skip-Blocked s ss r i e (demand d) = demand d

  enqueue_skip-was :
      (s : ℕ) (r : Run) (i : ℕ)
      → (enqueue_skip s r).status i ≡ JobStatus.pending
      → r.status i ≡ JobStatus.pending
  unfolding enqueue_skip
  enqueue_skip-was s r i e = ground arith

  enqueue_skip-idle :
      (s : ℕ) (r : Run) (i : ℕ)
      → busy (r.status i) ≡ false
      → busy ((enqueue_skip s r).status i) ≡ false
  unfolding enqueue_skip
  enqueue_skip-idle s r i h = ground arith

  pub enqueue_skip-AllBlocked :
      (s : ℕ) (ss : List ℕ) (r : Run) → AllBlocked g (s ∷ ss) r → AllBlocked g ss (enqueue_skip s r)
  enqueue_skip-AllBlocked s ss r all i l e =
      enqueue_skip-Blocked s ss r i e (all i l (enqueue_skip-was s r i e))

  pub enqueue_skip-Idle : (s : ℕ) (r : Run) → Idle g r → Idle g (enqueue_skip s r)
  enqueue_skip-Idle s r idle i l = enqueue_skip-idle s r i (idle i l)

  enqueue_skips-AllBlocked :
      (ss todo : List ℕ) (r : Run)
      → AllBlocked g (ss ++ todo) r × Idle g r
      → AllBlocked g todo (enqueue_skips ss r) × Idle g (enqueue_skips ss r)
  unfolding enqueue_skips
  enqueue_skips-AllBlocked [] todo r h = h
  enqueue_skips-AllBlocked (s ∷ ss) todo r h =
      enqueue_skips-AllBlocked ss todo (enqueue_skip s r)
        (enqueue_skip-AllBlocked s (ss ++ todo) r h.0, enqueue_skip-Idle s r h.1)

  -- Reading `x` from the queue puts its successors in line.
  popped-AllBlocked :
      (x : ℕ) (rest todo : List ℕ) (r : Run)
      → r.skipped_jobs ≡ x ∷ rest
      → AllBlocked g todo r
      → AllBlocked g ((g.node x).successors ++ todo) (record r { skipped_jobs = rest })
  popped-AllBlocked x rest todo r e all i l pending = reread (all i l pending)
    where
      reread :
          Blocked g todo r i
          → Blocked g ((g.node x).successors ++ todo) (record r { skipped_jobs = rest }) i
      reread (next c) = next (omega (arith, count-append i (g.node x).successors todo))
      reread (behind y c edge) = elim (ℕ_discrete y x) [
        | yes same ↦
            let here : Edge g x i = rw same at edge in
            next (omega (arith, count-append i (g.node x).successors todo))
        | no other ↦ behind y (ground (arith, ap (count y) e)) edge
      ]
      reread (after p lt edge up) = after p lt edge up
      reread (demand d) = demand d

  report-AllBlocked :
      (x : ℕ) (st : JobStatus) (todo : List ℕ) (r : Run)
      → AllBlocked g todo r × Idle g r
      → AllBlocked g todo (report g x st r) × Idle g (report g x st r)
  unfolding report notify_dependencies
  report-AllBlocked x st todo r h =
      (λ i l e. moved i (h.0 i l (ground (arith, e))), λ i l. ground (arith, h.1 i l))
    where
      moved : (i : ℕ) → Blocked g todo r i → Blocked g todo (report g x st r) i
      moved i (next c) = next c
      moved i (behind y c edge) = behind y (ground (arith, c)) edge
      moved i (after p lt edge up) = after p lt edge (ground (arith, up))
      moved i (demand d) = demand d

  pub skip_one-AllBlocked :
      (x : ℕ) (rest todo : List ℕ) (r : Run)
      → r.skipped_jobs ≡ x ∷ rest
      → AllBlocked g todo r × Idle g r
      → AllBlocked g todo (skip_one g x rest r) × Idle g (skip_one g x rest r)
  unfolding skip_one
  skip_one-AllBlocked x rest todo r e h =
      let r0 : Run = record r { skipped_jobs = rest } in
      let queued = enqueue_skips (g.node x).successors r0 in
      let kept =
        enqueue_skips-AllBlocked (g.node x).successors todo r0
          (popped-AllBlocked x rest todo r e h.0, h.1) in
      report-AllBlocked x JobStatus.skipped todo
        (record queued { completed_count = inc32 queued.completed_count }) (recounted queued kept)
    where
      recounted :
          (q : Run)
          → AllBlocked g todo q × Idle g q
          → AllBlocked g todo (record q { completed_count = inc32 q.completed_count })
            × Idle g (record q { completed_count = inc32 q.completed_count })
      recounted q k = (λ i l p. again i (k.0 i l p), k.1)
        where
          again :
              (i : ℕ)
              → Blocked g todo q i
              → Blocked g todo (record q { completed_count = inc32 q.completed_count }) i
          again i (next c) = next c
          again i (behind y c edge) = behind y c edge
          again i (after p lt edge up) = after p lt edge up
          again i (demand d) = demand d

  pub skip_one-Frame :
      (x : ℕ) (rest : List ℕ) (r : Run)
      → Frame r (skip_one g x rest r)
        × ((skip_one g x rest r).completed_count ≡ inc32 r.completed_count)
  unfolding skip_one report notify_dependencies
  skip_one-Frame x rest r =
      let r0 : Run = record r { skipped_jobs = rest } in
      let (frame, same) = enqueue_skips-Frame (g.node x).successors r0 in
      (
        record {
          fatal = ground (arith, frame.fatal);
          inline_ready = ground (arith, frame.inline_ready);
          unmet_deps = ground (arith, frame.unmet_deps);
          draining_skips = ground (arith, frame.draining_skips);
          readies = λ i e. frame.readies i (ground (arith, e));
          over = λ i h. ground (arith, frame.over i h);
        },
        ground (arith, same),
      )
