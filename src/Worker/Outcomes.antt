-- ===== src/Worker/Outcomes.antt =====
-- What the bodies of a request make of its jobs, for WorkerHost::run of src/remote/worker_host.cpp.
use sub0pipeline.Prelude.{
  ℕ, suc, ◌<◌, ◌≡◌, ◌≢◌, refl, ◌∙◌, ap, sym, Bool, true, false, Option, some, List, [], ◌∷◌, ◌==◌,
  length, arith, Bool-cases, count, inl, inr,
}
use sub0pipeline.Types.{JobStatus, PipelineError, Expected, unexpected, status_of}
use sub0pipeline.Graph.{Graph}
use sub0pipeline.Graph.Ranks.{Acyclic}
use sub0pipeline.Graph.Reachable.{Built-WellFormed}
use sub0pipeline.Validate.Completeness.{validate_decides}
use sub0pipeline.Invoke.{JobEnv, invoke}
use sub0pipeline.Run.Log.{tolerated}
use sub0pipeline.Run.Results.{run_jobs-called}
use sub0pipeline.Run.Entry.{run_impl}
use sub0pipeline.Wire.{no_payload, WireEdge, SubGraphRequest}
use sub0pipeline.Wire.Entries.{EdgesOk}
use sub0pipeline.Worker.Pipeline.{Left, status_byte, status_after, build}
use sub0pipeline.Worker.Emplacing.{Plain}
use sub0pipeline.Worker.Building.{edges_between, build_decides}
use sub0pipeline.Worker.Rounds.{
  held_back, outcome, held_back_ext, edges_between_lt, follows, reference, reference-outcome,
}
use sub0pipeline.Worker.Bodies.{is_done, blocked, kind_answer, body, code_of, Played, final_status}

-- No kind answers kCancelled.
abbrev pub NoCancel : ℕ → (ℕ → Option (Expected (Unit {0}))) → Type 0
NoCancel n kinds = (i : ℕ) → i < n → kind_answer (kinds i) ≢ unexpected PipelineError.cancelled

blocked-held_back :
    (left : ℕ → Left) (status : ℕ → JobStatus) (es : List WireEdge) (i : ℕ)
    → blocked (λ p. (left p).skipped) status es i ≡ held_back (final_status left status) es i
unfolding blocked
blocked-held_back left status [] i = refl
blocked-held_back left status (e ∷ es) i =
    let rest = blocked-held_back left status es i in
    let here = done_byte (status e.from) in ground (arith, rest, here)
  where
    done_byte : (st : JobStatus) → is_done st ≡ (status_byte st == 3)
    done_byte st = ground arith

-- The jobs of a request whose bodies skip some of them.
module _ (ts : ℕ → List ℕ) (req : SubGraphRequest) (g : Graph) (plain : Plain ts g)
    (size : g.size ≡ length req.jobs) (acyclic : Acyclic g)
    (kinds : ℕ → Option (Expected (Unit {0}))) (allowed : NoCancel (length req.jobs) kinds)
    (env : ℕ → JobEnv) (skip : ℕ → Bool)
    (answers : (i : ℕ) → i < length req.jobs → (env i).body ≡ body (skip i) (kinds i))
    (unstopped : (i : ℕ) → i < length req.jobs → (env i).stopped_at_entry ≡ false) where
  called : (i : ℕ) → i < g.size → (invoke (g.node i) (env i)).result ≡ body (skip i) (kinds i)
  unfolding invoke
  called i l =
      let lt : i < length req.jobs = omega (arith, l, size) in
      ground (arith, answers i lt, unstopped i lt, plain.untimed i)

  good :
      (i : ℕ)
      → i < g.size
      → tolerated (g.node i).optional (status_of (invoke (g.node i) (env i)).result) ≡ true
  unfolding status_of
  good i l =
      let lt : i < length req.jobs = omega (arith, l, size) in
      ground (arith, called i l, plain.optional i l, allowed i lt)

  status_after-body :
      (i : ℕ) → i < g.size → status_after (run_impl g env) i ≡ status_of (body (skip i) (kinds i))
  unfolding run_impl
  status_after-body i l =
      let wf = Built-WellFormed ts plain.built in
      let ok = (validate_decides g wf).0.1 acyclic in
      let (_, each) = run_jobs-called g env wf ok (λ j _. plain.ordinary j) good in
      ground (arith, ok, plain.fresh, l) ∙ each i l ∙ ap status_of (called i l)

-- A run whose bodies have run.
module _ (ts : ℕ → List ℕ) (req : SubGraphRequest) (g : Graph) (plain : Plain ts g)
    (size : g.size ≡ length req.jobs) (acyclic : Acyclic g)
    (kinds : ℕ → Option (Expected (Unit {0}))) (allowed : NoCancel (length req.jobs) kinds)
    (env : ℕ → JobEnv) (left : ℕ → Left)
    (played : Played kinds req env left (status_after (run_impl g env))) where
  final_status-outcome :
      (i : ℕ)
      → i < length req.jobs
      → final_status left (status_after (run_impl g env)) i
        ≡ outcome (final_status left (status_after (run_impl g env))) req.edges kinds i
  final_status-outcome i lt =
      let status = status_after (run_impl g env) in
      let skips = played.skips i lt ∙ blocked-held_back left status req.edges i in
      let known =
        status_after-body ts req g plain size acyclic kinds allowed env (λ j. (left j).skipped)
          played.answers played.unstopped i (omega (arith, lt, size)) in
      elim (Bool-cases (left i).skipped) [
        | inl away ↦ ground (arith, away, skips)
        | inr here ↦ ground (arith, here, skips, known)
      ]

-- In a worker's run, on a SequentialExecutor, of an acyclic request whose edges join two
-- different jobs of it, if no kind answers kCancelled, no cancellation comes and the bodies
-- have run, a job is kSkipped if one of its predecessors is not kDone, and otherwise has the
-- status of what its kind answers; and any two such runs of the request with the same answers
-- of the kinds give every job the same status.
pub final_status_unique :
    (ts : ℕ → List ℕ) (req : SubGraphRequest) (g : Graph) (kinds : ℕ → Option (Expected (Unit {0})))
    (env env' : ℕ → JobEnv) (left left' : ℕ → Left)
    → EdgesOk (length req.jobs) req.edges
    → build ts req ≡ some g
    → Acyclic g
    → NoCancel (length req.jobs) kinds
    → Played kinds req env left (status_after (run_impl g env))
    → Played kinds req env' left' (status_after (run_impl g env'))
    → (i : ℕ) → i < length req.jobs
    → (final_status left (status_after (run_impl g env)) i
        ≡ outcome (final_status left (status_after (run_impl g env))) req.edges kinds i)
      × (final_status left (status_after (run_impl g env)) i
          ≡ final_status left' (status_after (run_impl g env')) i)
final_status_unique ts req g kinds env env' left left' ends built (rank, ranked) allowed played
      played' i lt =
    let (plain, size, edges) = (build_decides ts req ends).1 g built in
    let one =
      final_status-outcome ts req g plain size (rank, ranked) kinds allowed env left played in
    let two =
      final_status-outcome ts req g plain size (rank, ranked) kinds allowed env' left' played' in
    (
      one i lt,
      follows req g size edges ends rank ranked kinds _ one (suc (rank i)) i (omega arith) lt
          ∙ sym (
              follows req g size edges ends rank ranked kinds _ two (suc (rank i)) i (omega arith)
                lt),
    )

-- Some run of such a request has bodies that have run: the conditions of the theorem above can hold.
Played-exists :
    (ts : ℕ → List ℕ) (req : SubGraphRequest) (g : Graph) (kinds : ℕ → Option (Expected (Unit {0})))
    → EdgesOk (length req.jobs) req.edges
    → build ts req ≡ some g
    → Acyclic g
    → NoCancel (length req.jobs) kinds
    → (env : ℕ → JobEnv) × (left : ℕ → Left) × Played kinds req env left
        (status_after (run_impl g env))
Played-exists ts req g kinds ends built (rank, ranked) allowed = (
  env,
  left,
  record {
    skips = λ i lt. same i lt ∙ sym (blocked-held_back left status req.edges i);
    codes = λ i lt. refl;
    answers = λ i lt. refl;
    unstopped = λ i lt. refl;
  },
)
  where
    parts :
        Plain ts g
        × (g.size ≡ length req.jobs)
        × ((p i : ℕ) → count i (g.node p).successors ≡ edges_between p i req.edges)
    parts = (build_decides ts req ends).1 g built

    wanted : ℕ → ℕ
    wanted = reference req g parts.1 parts.2 ends rank ranked kinds

    skip : ℕ → Bool
    skip i = held_back wanted req.edges i

    env : ℕ → JobEnv
    env i = record {
      stopped_at_entry = false;
      body = body (skip i) (kinds i);
      service = false;
      armed = false;
      stopped_after_arm = false;
      finished = true;
      expired = false;
    }

    left : ℕ → Left
    left i = record {
      skipped = skip i;
      code = code_of (skip i) (kinds i);
      message = [];
      output = record { kind = no_payload; bytes = [] };
    }

    status : ℕ → JobStatus
    status = status_after (run_impl g env)

    right : (p : ℕ) → p < length req.jobs → wanted p ≡ final_status left status p
    right p lt =
        let known =
          status_after-body ts req g parts.0 parts.1 (rank, ranked) kinds allowed env skip
            (λ i l. refl) (λ i l. refl) p (omega (arith, lt, parts.1)) in
        let follows_p = reference-outcome req g parts.1 parts.2 ends rank ranked kinds p lt in
        elim (Bool-cases (skip p)) [
          | inl away ↦ ground (arith, away, follows_p)
          | inr here ↦ ground (arith, here, follows_p, known)
        ]

    same : (i : ℕ) → i < length req.jobs → skip i ≡ held_back (final_status left status) req.edges i
    same i lt =
        held_back_ext wanted (final_status left status) req.edges i
          (λ p more. right p (edges_between_lt (length req.jobs) req.edges p i ends more))
