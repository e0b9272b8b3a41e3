-- ===== src/Run/Live.antt =====
-- The state of an inline run as long as no failure ends it, and how a job's end changes it.
use sub0pipeline.Prelude.{
  ℕ, ◌+◌, ◌^◌, ◌≤◌, ◌<◌, ◌≡◌, ◌⊎◌, Bool, true, false, not, List, [], ◌∷◌, arith, update, length,
  length-append, count, count-append, count-le-length, AllBelow-append,
}
use sub0pipeline.Types.{JobStatus}
use sub0pipeline.Graph.{Graph}
use sub0pipeline.Graph.Degrees.{degree, degree_ext}
use sub0pipeline.Graph.Build.{WellFormed, degree_bound}
use sub0pipeline.Run.{Run, has_fatal_failure, release_one}
use sub0pipeline.Run.Log.{passed, tolerated, no_failure}
use sub0pipeline.Run.Base.{Base, Listed, terminal, pend, one_if, total_status}

-- Over, with a result that may let the successors go on.
abbrev pub settled : JobStatus → Bool
settled JobStatus.done = true
settled JobStatus.failed = true
settled JobStatus.timed_out = true
settled _ = false

-- A status that a job has between two jobs of a run with no failure.
abbrev pub clean : JobStatus → Bool
clean JobStatus.pending = true
clean JobStatus.ready = true
clean st = settled st

abbrev pub live : Run → ℕ → Bool
live r p = not (settled (r.status p))

-- `todo` are the successors of the job that has just ended, not released yet.
pub record Live (g : Graph) (b : ℕ) (todo : List ℕ) (r : Run) : Type 0 where
  pub base : Base g b r
  pub listed : Listed g [] r
  pub calm : r.draining_skips ≡ false
  pub unfailed : has_fatal_failure r ≡ false
  pub empty : r.skipped_jobs ≡ []
  pub brief : length todo ≤ 32767
  pub lowered : (i : ℕ) → i < g.size → r.unmet_deps i ≡ degree g (live r) i + count i todo
  pub tidy : (i : ℕ) → i < g.size → clean (r.status i) ≡ true
  pub freed : (i : ℕ) → i < g.size → r.status i ≡ JobStatus.ready → r.unmet_deps i ≡ 0
  pub held :
      (i : ℕ)
      → i < g.size
      → r.status i ≡ JobStatus.pending
      → (0 < r.unmet_deps i) ⊎ ((g.node i).on_demand ≡ true)
  pub through : (p : ℕ) → p < g.size → settled (r.status p) ≡ true → passed g p r.events ≡ true
  pub fine :
      (p : ℕ)
      → p < g.size
      → settled (r.status p) ≡ true
      → tolerated (g.node p).optional (r.status p) ≡ true
  pub quiet : no_failure r.events ≡ true

-- Releasing ends no job.
same_live :
    (g : Graph) (s : ℕ) (r : Run)
    → has_fatal_failure r ≡ false
    → (p : ℕ) → live r p ≡ live (release_one g s r) p
unfolding release_one
same_live g s r ok p = ground arith

module _ (g : Graph) (b : ℕ) (wf : WellFormed g) where
  -- One successor loses a dependency, and becomes ready with its last one.
  pub release_one-Live :
      (s : ℕ) (ss : List ℕ) (r : Run)
      → s < g.size
      → Live g b (s ∷ ss) r
      → Live g b ss (release_one g s r)
  unfolding release_one
  release_one-Live s ss r lt h =
      let f' = update r.status s JobStatus.ready in
      let most = degree_bound g (live r) s wf in
      let low = h.lowered s lt in
      let brief = h.brief in
      let few = count-le-length s ss in
      let here : (0 < r.unmet_deps s) × (r.unmet_deps s < 2 ^ 32) = ground arith in
      let sum_terminal =
        total_status g b (λ st. one_if (terminal st)) r.status f' s lt (λ i ne. ground arith) in
      let sum_pend = total_status g b pend r.status f' s lt (λ i ne. ground arith) in
      let open_same = same_live g s r h.unfailed in
      record {
        base = record {
          stacked = ground (arith, h.base.stacked);
          queued = ground (arith, h.base.queued, AllBelow-append g.size r.inline_ready (s ∷ []));
          counted = ground (arith, h.base.counted, sum_terminal);
          once = λ i l. ground (arith, h.base.once i l);
          calls = λ i l. ground (arith, h.base.calls i l);
          ordered = ground (arith, h.base.ordered);
          room = ground (arith, h.base.room, sum_pend, length-append r.inline_ready (s ∷ []));
        };
        listed = λ i l. ground (arith, h.listed i l, count-append i r.inline_ready (s ∷ []));
        calm = ground (arith, h.calm);
        unfailed = ground (arith, h.unfailed);
        empty = ground (arith, h.empty);
        brief = ground arith;
        lowered = λ i l. ground (
          arith,
          h.lowered i l,
          degree_ext g (live r) (live (release_one g s r)) i (λ p pl. open_same p),
        );
        tidy = λ i l. ground (arith, h.tidy i l);
        freed = λ i l. ground (arith, h.freed i l);
        held = λ i l. ground (arith, h.held i l);
        through = λ p l. ground (arith, h.through p l);
        fine = λ p l. ground (arith, h.fine p l);
        quiet = ground (arith, h.quiet);
      }
