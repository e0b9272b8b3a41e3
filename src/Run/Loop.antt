-- ===== src/Run/Loop.antt =====
-- The loop of an inline run: each job taken from the worklist keeps the run's invariant, and the
-- worklist is empty after at most `size` jobs.
use mathlib.Core.Path.{subst}
use sub0pipeline.Prelude.{
  ℕ, zero, suc, ◌<◌, ◌≡◌, sym, ap, ◌∙◌, ◌≢◌, inl, inr, true, List, [], ◌∷◌, arith, if◌then◌else◌,
  length, count, AllBelow, List-cases, Option-cases, Bool-cases, ℕ_discrete,
}
use sub0pipeline.Types.{JobStatus, Expected}
use sub0pipeline.Graph.{Graph}
use sub0pipeline.Graph.Build.{WellFormed}
use sub0pipeline.Invoke.{JobEnv, invoke}
use sub0pipeline.Run.{
  Run, is_ready, is_fatal, skip_node, propagate, finish_job, execute, dispatch_job, read_ready,
  run_loop,
}
use sub0pipeline.Run.Base.{Base, Listed}
use sub0pipeline.Run.Blocked.{Blocked, next, behind, after, demand}
use sub0pipeline.Run.Skips.{Skipping, skip_node_lem}
use sub0pipeline.Run.Live.{Live}
use sub0pipeline.Run.Finish.{begun, after-Live, job_lt}
use sub0pipeline.Run.Fatal.{
  fatal-Dead, Cause, Frame-Cause, Dead, Alive, going, ending, status_of-ended, status_of-tolerated,
  is_fatal_lem, release-Live, Frame-failing,
}

-- dispatchJob in a run that no failure has ended.
module _ (g : Graph) (b : ℕ) (wf : WellFormed g) (env : ℕ → JobEnv) (x : ℕ) (rest : List ℕ)
    (r : Run) (e : r.inline_ready ≡ x ∷ rest) where
  abbrev taken : Run
  taken = record r { inline_ready = rest }

  finish-Alive :
      (h : Live g (suc b) [] r) (was : r.status x ≡ JobStatus.ready) (result : Expected (Unit {0}))
      → Alive g b (finish_job g x result (begun x rest r))
  unfolding finish_job
  finish-Alive h was result = elim (Option-cases (is_fatal (g.node x) result)) [
    | inl fine ↦ rw fine (
        going (
          unfold propagate in
          release-Live g b wf (g.node x).successors _
            (wf.targets x (job_lt g b wf x rest r h e was _ (status_of-ended result)))
            (after-Live g b wf x rest r h e was _ (status_of-ended result)
              (status_of-tolerated (g.node x) result fine))))
    | inr (c, bad) ↦
        let (named, spoilt) = is_fatal_lem (g.node x) result c bad in
        rw bad
          (ending (fatal-Dead g b wf x rest r h e was _ (status_of-ended result) c named spoilt))
  ]

  -- An entry whose job is no longer ready changes nothing but the worklist.
  taken-Base : Base g (suc b) r → Base g b taken
  taken-Base base = record {
    stacked = base.stacked;
    queued = (subst (AllBelow g.size) e base.queued).1;
    counted = base.counted;
    once = base.once;
    calls = base.calls;
    ordered = base.ordered;
    room = omega (arith, base.room, ap length e);
  }

  taken-Listed : r.status x ≢ JobStatus.ready → Listed g [] r → Listed g [] taken
  taken-Listed other h i l now = elim (ℕ_discrete i x) [
    | yes same ↦ absurd (other (rw (← same) now))
    | no apart ↦ ground (arith, h i l now, ap (count i) e)
  ]

  unready-Live : r.status x ≢ JobStatus.ready → Live g (suc b) [] r → Live g b [] taken
  unready-Live other h = record {
    base = taken-Base h.base;
    listed = taken-Listed other h.listed;
    calm = h.calm;
    unfailed = h.unfailed;
    empty = h.empty;
    brief = h.brief;
    lowered = h.lowered;
    tidy = h.tidy;
    freed = h.freed;
    held = h.held;
    through = h.through;
    fine = h.fine;
    quiet = h.quiet;
  }

  -- After a failure the job is skipped.
  taken-Skipping : Dead g (suc b) r → Skipping g b (x ∷ []) taken
  taken-Skipping d = record {
    base = taken-Base d.skipping.base;
    blocked = λ i l now. again i (d.skipping.blocked i l now);
    idle = d.skipping.idle;
  }
    where
      again : (i : ℕ) → Blocked g [] r i → Blocked g (x ∷ []) taken i
      again i (next c) = next (omega arith)
      again i (behind y c edge) = behind y c edge
      again i (after p l edge up) = after p l edge up
      again i (demand dm) = demand dm

  taken-Cause : Cause g r → Cause g taken
  taken-Cause c = record {
    error = c.error;
    job = c.job;
    named = c.named;
    inside = c.inside;
    over = c.over;
    bad = c.bad;
    fits = c.fits;
  }

  skip-Dead : Dead g (suc b) r → Dead g b (skip_node g x taken)
  skip-Dead d =
      let lt : x < g.size = (subst (AllBelow g.size) e d.skipping.base.queued).0 in
      let (kept', frame, empty, claimed) =
        skip_node_lem g b [] wf x taken lt d.calm (taken-Skipping d) in
      record {
        skipping = kept';
        listed = λ i l now. elim (ℕ_discrete i x) [
          | yes same ↦ absurd (claimed (ap (skip_node g x taken).status (sym same) ∙ now))
          | no apart ↦ ground (
            arith,
            d.listed i l (frame.readies i now),
            ap (count i) e,
            ap (count i) frame.inline_ready,
          )
        ];
        calm = frame.draining_skips ∙ d.calm;
        empty = empty;
        failing = Frame-failing g b wf taken _ frame d.failing;
        cause = Frame-Cause g taken _ frame (taken-Cause d.cause);
      }

  is_ready-eq : is_ready (r.status x) ≡ true → r.status x ≡ JobStatus.ready
  is_ready-eq t = ground arith

  dispatch_job-Alive : Alive g (suc b) r → Alive g b (dispatch_job g env x taken)
  unfolding dispatch_job
  dispatch_job-Alive (ending d) =
      subst
        (λ f. Alive g b (
          if f
          then skip_node g x taken
          else (if is_ready (r.status x) then execute g env x taken else taken)))
        (sym d.failing) (ending (skip-Dead d))
  dispatch_job-Alive (going h) =
      subst
        (λ f. Alive g b (
          if f
          then skip_node g x taken
          else (if is_ready (r.status x) then execute g env x taken else taken)))
        (sym h.unfailed)
        (elim (Bool-cases (is_ready (r.status x))) [
          | inl now ↦
              subst (λ f. Alive g b (if f then execute g env x taken else taken)) (sym now)
                (unfold execute in
                  finish-Alive h (is_ready-eq now) (invoke (g.node x) (env x)).result)
          | inr other ↦
              subst (λ f. Alive g b (if f then execute g env x taken else taken)) (sym other)
                (going (unready-Live (λ now. ground arith) h))
        ])

-- The run is over: the worklist is empty, and the invariant holds.
abbrev pub Over : Graph → Run → Type 0
Over g r = (b : ℕ) × Alive g b r × (r.inline_ready ≡ [])

module _ (g : Graph) (env : ℕ → JobEnv) where
  loop_nil : (fuel : ℕ) (r : Run) → r.inline_ready ≡ [] → run_loop g env (suc fuel) r ≡ r
  unfolding run_loop
  loop_nil fuel r e = ap (λ q. read_ready g env (run_loop g env fuel) q r) e

  loop_cons :
      (fuel : ℕ) (r : Run) (x : ℕ) (rest : List ℕ)
      → r.inline_ready ≡ x ∷ rest
      → run_loop g env (suc fuel) r
        ≡ run_loop g env fuel (dispatch_job g env x (record r { inline_ready = rest }))
  unfolding run_loop read_ready
  loop_cons fuel r x rest e = ap (λ q. read_ready g env (run_loop g env fuel) q r) e

  pub run_loop-Over :
      (fuel : ℕ) (r : Run) → WellFormed g → Alive g fuel r → Over g (run_loop g env fuel r)
  run_loop-Over zero r wf alive = unfold run_loop in (0, alive, emptied alive)
    where
      none_left : Base g 0 r → r.inline_ready ≡ []
      none_left base = elim (List-cases r.inline_ready) [
        | inl e ↦ e
        | inr (x, rest, e) ↦ absurd (omega (arith, base.room, ap length e))
      ]

      emptied : Alive g 0 r → r.inline_ready ≡ []
      emptied (going h) = none_left h.base
      emptied (ending d) = none_left d.skipping.base
  run_loop-Over (suc fuel) r wf alive = elim (List-cases r.inline_ready) [
    | inl e ↦ subst (Over g) (sym (loop_nil fuel r e)) (suc fuel, alive, e)
    | inr (x, rest, e) ↦
        subst (Over g) (sym (loop_cons fuel r x rest e))
          (run_loop-Over fuel _ wf (dispatch_job-Alive g fuel wf env x rest r e alive))
  ]
