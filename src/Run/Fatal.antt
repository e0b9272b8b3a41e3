-- ===== src/Run/Fatal.antt =====
-- The end of a run by a failure that may not be ignored: its cause is recorded, and the successors
-- of the job are skipped.
use mathlib.Core.Path.{subst}
use sub0pipeline.Prelude.{
  ℕ, suc, ◌<◌, ◌≡◌, refl, sym, ap, ◌∙◌, true, false, none, some, List, [], ◌∷◌, arith, count,
  AllBelow,
}
use sub0pipeline.Types.{JobStatus, Expected, value, unexpected, PipelineError, status_of}
use sub0pipeline.Graph.{Graph, Node}
use sub0pipeline.Graph.Build.{WellFormed}
use sub0pipeline.Run.{
  failed, Run, has_fatal_failure, is_fatal, emit, record_failure, skip_node, skip_nodes,
  release_one, release, propagate,
}
use sub0pipeline.Run.Log.{tolerated}
use sub0pipeline.Run.Base.{Listed, terminal}
use sub0pipeline.Run.Blocked.{Blocked, next, behind, after, demand, Frame, Frame-refl, Frame-trans}
use sub0pipeline.Run.Skips.{Skipping, skip_node_lem}
use sub0pipeline.Run.Live.{Live, release_one-Live}
use sub0pipeline.Run.Finish.{
  ended, after_job, after-Base, after-Listed, after-AllBlocked, after-Idle, kept, job_lt,
  status_after,
}

-- The error that the run returns is that of a job that ended with it and may not be ignored.
pub record Cause (g : Graph) (r : Run) : Type 0 where
  pub error : PipelineError
  pub job : ℕ
  pub named : r.fatal ≡ some (error, job)
  pub inside : job < g.size
  pub over : terminal (r.status job) ≡ true
  pub bad : tolerated (g.node job).optional (r.status job) ≡ false
  pub fits : r.status job ≡ status_of (unexpected error)

pub Frame-Cause : (g : Graph) (r r' : Run) → Frame r r' → Cause g r → Cause g r'
Frame-Cause g r r' frame c =
    let same = frame.over c.job c.over in
    record {
      error = c.error;
      job = c.job;
      named = frame.fatal ∙ c.named;
      inside = c.inside;
      over = ap terminal same ∙ c.over;
      bad = ap (tolerated (g.node c.job).optional) same ∙ c.bad;
      fits = same ∙ c.fits;
    }

-- The state after a fatal failure, between two jobs.
pub record Dead (g : Graph) (b : ℕ) (r : Run) : Type 0 where
  pub skipping : Skipping g b [] r
  pub listed : Listed g [] r
  pub calm : r.draining_skips ≡ false
  pub empty : r.skipped_jobs ≡ []
  pub failing : has_fatal_failure r ≡ true
  pub cause : Cause g r

pub data Alive (g : Graph) (b : ℕ) (r : Run) : Type 0 where
  going : Live g b [] r → Alive g b r
  ending : Dead g b r → Alive g b r

pub status_of-ended : (result : Expected (Unit {0})) → ended (status_of result) ≡ true
unfolding status_of
status_of-ended result = ground arith

-- A result that does not end the run lets the successors go on.
pub status_of-tolerated :
    (nd : Node) (result : Expected (Unit {0}))
    → is_fatal nd result ≡ none
    → tolerated nd.optional (status_of result) ≡ true
unfolding status_of
status_of-tolerated nd (value v) e = refl
status_of-tolerated nd (unexpected c) e = ground arith

pub is_fatal_lem :
    (nd : Node) (result : Expected (Unit {0})) (c : PipelineError)
    → is_fatal nd result ≡ some c
    → (status_of result ≡ status_of (unexpected c))
      × (tolerated nd.optional (status_of result) ≡ false)
unfolding status_of
is_fatal_lem nd (value v) c e = cc
is_fatal_lem nd (unexpected f) c e = ground arith

pub ended-terminal : (st : JobStatus) → ended st ≡ true → terminal st ≡ true
ended-terminal st h = ground arith

module _ (g : Graph) (b : ℕ) (wf : WellFormed g) where
  pub release-Live :
      (ss : List ℕ) (r : Run) → AllBelow g.size ss → Live g b ss r → Live g b [] (release g ss r)
  unfolding release
  release-Live [] r lt h = h
  release-Live (s ∷ ss) r lt h =
      release-Live ss (release_one g s r) lt.1 (release_one-Live g b wf s ss r lt.0 h)

  pub skip_nodes_lem :
      (ss : List ℕ) (r : Run)
      → AllBelow g.size ss
      → r.draining_skips ≡ false
      → r.skipped_jobs ≡ []
      → Skipping g b ss r
      → Skipping g b [] (skip_nodes g ss r)
        × Frame r (skip_nodes g ss r)
        × ((skip_nodes g ss r).skipped_jobs ≡ [])
  unfolding skip_nodes
  skip_nodes_lem [] r lt calm empty h = (h, Frame-refl r, empty)
  skip_nodes_lem (s ∷ ss) r lt calm empty h =
      let (h', frame, empty', _) = skip_node_lem g b ss wf s r lt.0 calm h in
      let (last, frame', done) =
        skip_nodes_lem ss (skip_node g s r) lt.1 (frame.draining_skips ∙ calm) empty' h' in
      (last, Frame-trans frame frame', done)

  pub Frame-Listed :
      (taken : List ℕ) (r r' : Run) → Frame r r' → Listed g taken r → Listed g taken r'
  Frame-Listed taken r r' frame h i l now =
      omega (arith, h i l (frame.readies i now), ap (count i) frame.inline_ready)

  pub Frame-failing :
      (r r' : Run) → Frame r r' → has_fatal_failure r ≡ true → has_fatal_failure r' ≡ true
  Frame-failing r r' frame h = ground (arith, frame.fatal, h)

-- A fatal failure: the successors of the job are skipped.
module _ (g : Graph) (b : ℕ) (wf : WellFormed g) (x : ℕ) (rest : List ℕ) (r : Run)
    (h : Live g (suc b) [] r) (e : r.inline_ready ≡ x ∷ rest) (was : r.status x ≡ JobStatus.ready)
    (st : JobStatus) (over : ended st ≡ true) where
  abbrev job_done : Run
  job_done = after_job g b wf x rest r h e was st over

  abbrev recorded : PipelineError → Run
  recorded c = record job_done { fatal = some (c, x); events = failed x c ∷ job_done.events }

  record_failure-recorded :
      (c : PipelineError) → record_failure x c (emit (failed x c) job_done) ≡ recorded c
  unfolding record_failure
  record_failure-recorded c =
      ground (arith, (kept g b wf x rest r h e was st over).fatal, h.unfailed)

  recorded-Skipping : (c : PipelineError) → Skipping g b (g.node x).successors (recorded c)
  recorded-Skipping c =
      let base = after-Base g b wf x rest r h e was st over in
      record {
        base = record {
          stacked = base.stacked;
          queued = base.queued;
          counted = base.counted;
          once = base.once;
          calls = base.calls;
          ordered = base.ordered;
          room = base.room;
        };
        blocked = λ i l now. again i (after-AllBlocked g b wf x rest r h e was st over i l now);
        idle = after-Idle g b wf x rest r h e was st over;
      }
    where
      again :
          (i : ℕ)
          → Blocked g (g.node x).successors job_done i
          → Blocked g (g.node x).successors (recorded c) i
      again i (next c') = next c'
      again i (behind y c' edge) = behind y c' edge
      again i (after p l edge up) = after p l edge up
      again i (demand d) = demand d

  pub fatal-Dead :
      (c : PipelineError)
      → st ≡ status_of (unexpected c)
      → tolerated (g.node x).optional st ≡ false
      → Dead g b (propagate g x (some c) job_done)
  unfolding propagate
  fatal-Dead c named bad =
      subst (λ r'. Dead g b (skip_nodes g (g.node x).successors r'))
        (sym (record_failure-recorded c)) dead
    where
      skipped_all :
          Skipping g b [] (skip_nodes g (g.node x).successors (recorded c))
          × Frame (recorded c) (skip_nodes g (g.node x).successors (recorded c))
          × ((skip_nodes g (g.node x).successors (recorded c)).skipped_jobs ≡ [])
      skipped_all =
          skip_nodes_lem g b wf (g.node x).successors (recorded c)
            (wf.targets x (job_lt g b wf x rest r h e was st over))
            ((kept g b wf x rest r h e was st over).draining ∙ h.calm)
            ((kept g b wf x rest r h e was st over).skips ∙ h.empty) (recorded-Skipping c)

      now : job_done.status x ≡ st
      now = status_after g b wf x rest r h e was st over x ∙ ground arith

      cause : Cause g (recorded c)
      cause = record {
        error = c;
        job = x;
        named = refl;
        inside = job_lt g b wf x rest r h e was st over;
        over = ap terminal now ∙ ended-terminal st over;
        bad = ap (tolerated (g.node x).optional) now ∙ bad;
        fits = now ∙ named;
      }

      dead : Dead g b (skip_nodes g (g.node x).successors (recorded c))
      dead = record {
        skipping = skipped_all.0;
        listed =
            Frame-Listed g b wf [] (recorded c) _ skipped_all.1
              (after-Listed g b wf x rest r h e was st over);
        calm =
            skipped_all.1.draining_skips ∙ (kept g b wf x rest r h e was st over).draining ∙ h.calm;
        empty = skipped_all.2;
        failing = Frame-failing g b wf (recorded c) _ skipped_all.1 refl;
        cause = Frame-Cause g (recorded c) _ skipped_all.1 cause;
      }
