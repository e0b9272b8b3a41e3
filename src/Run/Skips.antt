-- ===== src/Run/Skips.antt =====
-- Rounds of skipNode keep `Base`, and `size` rounds empty the queue.
use mathlib.Core.Path.{subst}
use sub0pipeline.Prelude.{
  ℕ, zero, suc, ◌+◌, ◌≤◌, ◌<◌, ◌≡◌, refl, sym, ap, ◌∙◌, ◌≢◌, inl, inr, Bool, true, false, List, [],
  ◌∷◌, arith, if◌then◌else◌, inc32, length, AllBelow, List-cases,
}
use sub0pipeline.Types.{JobStatus}
use sub0pipeline.Graph.{Graph}
use sub0pipeline.Graph.Build.{WellFormed}
use sub0pipeline.Run.{
  Run, enqueue_skip, enqueue_skips, report, skip_one, drain, skip_node, read_skipped,
  notify_dependencies,
}
use sub0pipeline.Run.Base.{Base, terminal, enqueue_skip-Base, enqueue_skips-Base, counted-le}
use sub0pipeline.Run.Blocked.{
  Blocked, next, behind, after, demand, AllBlocked, Idle, Frame, Frame-refl, Frame-trans,
  enqueue_skip-AllBlocked, enqueue_skip-Idle, enqueue_skip-Frame, skip_one-AllBlocked,
  skip_one-Frame,
}

-- The queue with `idx` still in front.
abbrev pub stack : ℕ → Run → Run
stack idx r = record r { skipped_jobs = idx ∷ r.skipped_jobs }

enqueue_skip-stack :
    (idx s : ℕ) (r : Run) → enqueue_skip s (stack idx r) ≡ stack idx (enqueue_skip s r)
unfolding enqueue_skip
enqueue_skip-stack idx s r = ground arith

pub enqueue_skips-stack :
    (idx : ℕ) (ss : List ℕ) (r : Run)
    → enqueue_skips ss (stack idx r) ≡ stack idx (enqueue_skips ss r)
unfolding enqueue_skips
enqueue_skips-stack idx [] r = refl
enqueue_skips-stack idx (s ∷ ss) r =
    ap (enqueue_skips ss) (enqueue_skip-stack idx s r)
    ∙ enqueue_skips-stack idx ss (enqueue_skip s r)

module _ (g : Graph) (b : ℕ) (wf : WellFormed g) where
  -- Counting a job that left the queue.
  counted-Base :
      (idx : ℕ) (r : Run)
      → idx < g.size
      → Base g b (stack idx r)
      → Base g b
          (report g idx JobStatus.skipped (record r { completed_count = inc32 r.completed_count }))
  unfolding report notify_dependencies
  counted-Base idx r lt base = record {
    stacked = ground (arith, base.stacked);
    queued = ground (arith, base.queued);
    counted = ground (arith, base.counted, counted-le g b (stack idx r) base, wf.fits);
    once = λ i l. ground (arith, base.once i l);
    calls = λ i l. ground (arith, base.calls i l);
    ordered = ground (arith, base.ordered);
    room = ground (arith, base.room);
  }

  pub skip_one-Base :
      (idx : ℕ) (rest : List ℕ) (r : Run)
      → idx < g.size
      → Base g b (stack idx (record r { skipped_jobs = rest }))
      → Base g b (skip_one g idx rest r)
  unfolding skip_one
  skip_one-Base idx rest r lt base =
      let r0 : Run = record r { skipped_jobs = rest } in
      let ss = (g.node idx).successors in
      counted-Base idx (enqueue_skips ss r0) lt (
        subst (Base g b) (enqueue_skips-stack idx ss r0)
          (enqueue_skips-Base g b ss (stack idx r0) (wf.targets idx lt) base))

-- The `while` loop as equations.
pub drain_nil : (g : Graph) (fuel : ℕ) (r : Run) → r.skipped_jobs ≡ [] → drain g (suc fuel) r ≡ r
unfolding drain
drain_nil g fuel r e = ap (λ q. read_skipped g (drain g fuel) q r) e

pub drain_cons :
    (g : Graph) (fuel : ℕ) (r : Run) (x : ℕ) (rest : List ℕ)
    → r.skipped_jobs ≡ x ∷ rest
    → drain g (suc fuel) r ≡ drain g fuel (skip_one g x rest r)
unfolding drain
drain_cons g fuel r x rest e = ap (λ q. read_skipped g (drain g fuel) q r) e

pub stack-eq :
    (r : Run) (x : ℕ) (rest : List ℕ)
    → r.skipped_jobs ≡ x ∷ rest
    → r ≡ stack x (record r { skipped_jobs = rest })
stack-eq r x rest e = λ i. record r { skipped_jobs = e i }

-- The state while skips are worked off.
pub record Skipping (g : Graph) (b : ℕ) (todo : List ℕ) (r : Run) : Type 0 where
  pub base : Base g b r
  pub blocked : AllBlocked g todo r
  pub idle : Idle g r

module _ (g : Graph) (b : ℕ) (todo : List ℕ) (wf : WellFormed g) where
  skip_one-Skipping :
      (x : ℕ) (rest : List ℕ) (r : Run)
      → r.skipped_jobs ≡ x ∷ rest
      → Skipping g b todo r
      → Skipping g b todo (skip_one g x rest r)
        × ((skip_one g x rest r).completed_count ≡ suc r.completed_count)
  skip_one-Skipping x rest r e h =
      let lt : x < g.size = (subst (AllBelow g.size) e h.base.stacked).0 in
      let kept = skip_one-AllBlocked g x rest todo r e (h.blocked, h.idle) in
      (
        record {
          base = skip_one-Base g b wf x rest r lt (subst (Base g b) (stack-eq r x rest e) h.base);
          blocked = kept.0;
          idle = kept.1;
        },
        omega (arith, (skip_one-Frame g x rest r).1, counted-le g b r h.base, wf.fits),
      )

  drain_lem :
      (fuel : ℕ) (r : Run)
      → g.size ≤ fuel + r.completed_count
      → Skipping g b todo r
      → Skipping g b todo (drain g fuel r)
        × Frame r (drain g fuel r)
        × ((drain g fuel r).skipped_jobs ≡ [])
  drain_lem zero r enough h =
      unfold drain in
      elim (List-cases r.skipped_jobs) [
        | inl e ↦ (h, Frame-refl r, e)
        | inr (x, rest, e) ↦ absurd (omega (arith, counted-le g b r h.base, ap length e))
      ]
  drain_lem (suc fuel) r enough h = elim (List-cases r.skipped_jobs) [
    | inl e ↦ subst Goal (sym (drain_nil g fuel r e)) (h, Frame-refl r, e)
    | inr (x, rest, e) ↦
        let (kept, one_more) = skip_one-Skipping x rest r e h in
        let (last, frame, empty) =
          drain_lem fuel (skip_one g x rest r) (omega (arith, one_more)) kept in
        subst Goal (sym (drain_cons g fuel r x rest e))
          (last, Frame-trans (skip_one-Frame g x rest r).0 frame, empty)
  ]
    where
      Goal : Run → Type 0
      Goal r' = Skipping g b todo r' × Frame r r' × (r'.skipped_jobs ≡ [])

  set_draining : Bool → Run → Run
  set_draining d r = record r { draining_skips = d }

  set_draining-Skipping :
      (d : Bool) (ts : List ℕ) (r : Run) → Skipping g b ts r → Skipping g b ts (set_draining d r)
  unfolding set_draining
  set_draining-Skipping d ts r h = record {
    base = record {
      stacked = h.base.stacked;
      queued = h.base.queued;
      counted = h.base.counted;
      once = h.base.once;
      calls = h.base.calls;
      ordered = h.base.ordered;
      room = h.base.room;
    };
    blocked = λ i l p. again i (h.blocked i l p);
    idle = h.idle;
  }
    where
      again : (i : ℕ) → Blocked g ts r i → Blocked g ts (set_draining d r) i
      again i (next c) = next c
      again i (behind y c edge) = behind y c edge
      again i (after p lt edge up) = after p lt edge up
      again i (demand dm) = demand dm

  skip_node-drain :
      (s : ℕ) (r : Run)
      → (enqueue_skip s r).draining_skips ≡ false
      → skip_node g s r ≡ set_draining false (drain g g.size (set_draining true (enqueue_skip s r)))
  unfolding skip_node set_draining
  skip_node-drain s r calm =
      ap
        (λ d.
          if d
          then enqueue_skip s r
          else set_draining false (drain g g.size (set_draining true (enqueue_skip s r))))
        calm

  enqueue_skip-claims : (s : ℕ) (r : Run) → (enqueue_skip s r).status s ≢ JobStatus.ready
  unfolding enqueue_skip
  enqueue_skip-claims s r e = ground arith

  -- skipNode works its queue off and leaves the job, and all that follow from it, skipped.
  pub skip_node_lem :
      (s : ℕ) (r : Run)
      → s < g.size
      → r.draining_skips ≡ false
      → Skipping g b (s ∷ todo) r
      → Skipping g b todo (skip_node g s r)
        × Frame r (skip_node g s r)
        × ((skip_node g s r).skipped_jobs ≡ [])
        × ((skip_node g s r).status s ≢ JobStatus.ready)
  unfolding set_draining
  skip_node_lem s r lt calm h =
      let queued = enqueue_skip s r in
      let first = enqueue_skip-Frame s r in
      let enqueued : Skipping g b todo queued = record {
        base = enqueue_skip-Base g b s r lt h.base;
        blocked = enqueue_skip-AllBlocked g s todo r h.blocked;
        idle = enqueue_skip-Idle g s r h.idle;
      } in
      let (kept, frame, empty) =
        drain_lem g.size (set_draining true queued) (omega arith)
          (set_draining-Skipping true todo queued enqueued) in
      subst
        (λ r'.
          Skipping g b todo r'
          × Frame r r'
          × (r'.skipped_jobs ≡ [])
          × (r'.status s ≢ JobStatus.ready))
        (sym (skip_node-drain s r (first.draining_skips ∙ calm)))
        (
          set_draining-Skipping false todo _ kept,
          record {
            fatal = frame.fatal ∙ first.fatal;
            inline_ready = frame.inline_ready ∙ first.inline_ready;
            unmet_deps = frame.unmet_deps ∙ first.unmet_deps;
            draining_skips = sym calm;
            readies = λ i e. first.readies i (frame.readies i e);
            over = λ i o. frame.over i (ap terminal (first.over i o) ∙ o) ∙ first.over i o;
          },
          empty,
          λ e. enqueue_skip-claims s r (frame.readies s e),
        )
