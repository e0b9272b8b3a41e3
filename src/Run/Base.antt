-- ===== src/Run/Base.antt =====
-- What every state of an inline run satisfies, before and after a fatal failure.
use sub0pipeline.Prelude.{
  ℕ, ◌+◌, ◌≤◌, ◌<◌, ◌≡◌, ap, ◌≢◌, Bool, true, false, List, [], ◌∷◌, arith, if◌then◌else◌, update,
  length, length-append, count, count-append, AllBelow, AllBelow-append, total, total_at, total-le,
}
use sub0pipeline.Types.{JobStatus}
use sub0pipeline.Graph.{Graph}
use sub0pipeline.Run.{Run, enqueue_skip, enqueue_skips}
use sub0pipeline.Run.Log.{starts, finishes, IsOrdered}

-- The job is over for this run.
abbrev pub terminal : JobStatus → Bool
terminal JobStatus.pending = false
terminal JobStatus.ready = false
terminal JobStatus.running = false
terminal JobStatus.awaiting = false
terminal _ = true

-- The job's body has not been called.
abbrev pub waiting : JobStatus → Bool
waiting JobStatus.pending = true
waiting JobStatus.ready = true
waiting JobStatus.skipped = true
waiting _ = false

abbrev pub pend : JobStatus → ℕ
pend JobStatus.pending = 1
pend _ = 0

abbrev pub one_if : Bool → ℕ
one_if b = if b then 1 else 0

-- `bound` limits the number of jobs that can still be taken from the worklist.
pub record Base (g : Graph) (bound : ℕ) (r : Run) : Type 0 where
  pub stacked : AllBelow g.size r.skipped_jobs
  pub queued : AllBelow g.size r.inline_ready
  pub counted :
      r.completed_count + length r.skipped_jobs ≡ total g.size (λ i. one_if (terminal (r.status i)))
  pub once :
      (i : ℕ)
      → i < g.size
      → finishes i r.events + count i r.skipped_jobs ≡ one_if (terminal (r.status i))
  pub calls : (i : ℕ) → i < g.size → starts i r.events + one_if (waiting (r.status i)) ≡ 1
  pub ordered : IsOrdered g r.events
  pub room : length r.inline_ready + total g.size (λ i. pend (r.status i)) ≤ bound

-- Every ready job is in the worklist, or has just been taken from it.
abbrev pub Listed : Graph → List ℕ → Run → Type 0
Listed g taken r =
    (i : ℕ) → i < g.size → r.status i ≡ JobStatus.ready → 0 < count i taken + count i r.inline_ready

module _ (g : Graph) (b : ℕ) where
  -- The sums after one status has changed.
  pub total_status :
      (w : JobStatus → ℕ) (f f' : ℕ → JobStatus) (x : ℕ)
      → x < g.size
      → ((i : ℕ) → i ≢ x → f i ≡ f' i)
      → total g.size (λ i. w (f i)) + w (f' x) ≡ total g.size (λ i. w (f' i)) + w (f x)
  total_status w f f' x lt same =
      total_at g.size x (λ i. w (f i)) (λ i. w (f' i)) lt (λ i l ne. ap w (same i ne))

  pub enqueue_skip-Base : (s : ℕ) (r : Run) → s < g.size → Base g b r → Base g b (enqueue_skip s r)
  unfolding enqueue_skip
  enqueue_skip-Base s r lt base =
      let f' = update r.status s JobStatus.skipped in
      let other = λ (i : ℕ) (ne : i ≢ s). apart i ne in
      let sum_terminal = total_status (λ st. one_if (terminal st)) r.status f' s lt other in
      let sum_pend = total_status pend r.status f' s lt other in
      record {
        stacked = ground (arith, base.stacked, AllBelow-append g.size r.skipped_jobs (s ∷ []));
        queued = ground (arith, base.queued);
        counted = ground (arith, base.counted, sum_terminal, length-append r.skipped_jobs (s ∷ []));
        once = λ i l. ground (arith, base.once i l, count-append i r.skipped_jobs (s ∷ []));
        calls = λ i l. ground (arith, base.calls i l);
        ordered = ground (arith, base.ordered);
        room = ground (arith, base.room, sum_pend);
      }
    where
      apart : (i : ℕ) → i ≢ s → r.status i ≡ update r.status s JobStatus.skipped i
      apart i ne = ground arith

  pub enqueue_skips-Base :
      (ss : List ℕ) (r : Run) → AllBelow g.size ss → Base g b r → Base g b (enqueue_skips ss r)
  unfolding enqueue_skips
  enqueue_skips-Base [] r lt base = base
  enqueue_skips-Base (s ∷ ss) r lt base =
      enqueue_skips-Base ss (enqueue_skip s r) lt.1 (enqueue_skip-Base s r lt.0 base)

  -- No job is counted twice, so the count of finished jobs cannot overflow.
  pub counted-le : (r : Run) → Base g b r → r.completed_count + length r.skipped_jobs ≤ g.size
  counted-le r base = omega (
    arith,
    base.counted,
    total-le g.size (λ i. one_if (terminal (r.status i))) (λ i l. small (terminal (r.status i))),
  )
    where
      small : (t : Bool) → one_if t ≤ 1
      small t = ground arith
