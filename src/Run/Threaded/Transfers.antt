-- ===== src/Run/Threaded/Transfers.antt =====
-- What one move does to submissions, dependencies, calls and claims.
use sub0pipeline.Prelude.{
  ℕ, ◌+◌, ◌^◌, ◌≤◌, ◌<◌, ◌≡◌, refl, ◌⊎◌, true, ◌==◌, arith, if◌then◌else◌, count, Option-cases, inl,
  inr,
}
use sub0pipeline.Types.{status_of}
use sub0pipeline.Graph.{Graph}
use sub0pipeline.Run.{is_ready, is_fatal, enqueue_skip, notify_dependencies, record_failure}
use sub0pipeline.Run.Base.{waiting, pend, one_if}
use sub0pipeline.Run.Log.{starts, tolerated}
use sub0pipeline.Run.Threaded.{
  Pc, Shared, Move, call_back, start, report_job, lower_last, lower_one,
}
use sub0pipeline.Run.Threaded.Claims.{claims, is_main, holds, active, is_claimed, unpaid, Own}
use sub0pipeline.Run.Threaded.Moves.{guard, Move-unpaid}

pub Move-single :
    {g : Graph} {i : ℕ} {m m' : Shared} {p p' : Pc} (s : ℕ)
    → Move g i m p m' p'
    → holds s p' + m'.accepted s + (if s == i then active p' else 0) + pend (m'.run.status s)
      ≤ holds s p + m.accepted s + (if s == i then active p else 0) + pend (m.run.status s)
unfolding enqueue_skip notify_dependencies record_failure status_of
Move-single {g} {i} s (report_job {o}) = elim (Option-cases (is_fatal (g.node i) o)) [
  | inl fine ↦ ground (arith, fine)
  | inr (c, bad) ↦ ground (arith, bad)
]
Move-single s mv = ground (arith, guard mv)

pub Move-unmet :
    {g : Graph} {i : ℕ} {m m' : Shared} {p p' : Pc} (s : ℕ)
    → Move g i m p m' p'
    → Own (g.node i) (m.run.status i) p
    → m.run.unmet_deps s < 2 ^ 32
    → unpaid s (count s (g.node i).successors) (tolerated (g.node i).optional (m.run.status i)) p
      ≤ m.run.unmet_deps s
    → (m'.run.unmet_deps s ≤ m.run.unmet_deps s)
      × (m.run.unmet_deps s
            + unpaid s
                (count s (g.node i).successors)
                (tolerated (g.node i).optional (m'.run.status i))
                p'
          ≤ m'.run.unmet_deps s
            + unpaid s
                (count s (g.node i).successors)
                (tolerated (g.node i).optional (m.run.status i))
                p)
unfolding enqueue_skip notify_dependencies record_failure
Move-unmet s (lower_last {s = x} h) own small enough = ground arith
Move-unmet s (lower_one {s = x} h) own small enough = ground arith
Move-unmet s mv own small enough = ground (arith, Move-unpaid s mv own)

pub Move-calls :
    {g : Graph} {i : ℕ} {m m' : Shared} {p p' : Pc} (j : ℕ)
    → Move g i m p m' p'
    → starts j m'.run.events
        + one_if (waiting (m'.run.status j))
        + (if j == i then is_claimed p' else 0)
      ≤ starts j m.run.events
        + one_if (waiting (m.run.status j))
        + (if j == i then is_claimed p else 0)
unfolding enqueue_skip notify_dependencies record_failure status_of
Move-calls j (start) = ground arith
Move-calls j mv = ground (arith, guard mv)

pub Move-live :
    {g : Graph} {i : ℕ} {m m' : Shared} {p p' : Pc} (j : ℕ)
    → Move g i m p m' p'
    → one_if (is_ready (m'.run.status j))
        + starts j m'.run.events
        + (if j == i then is_claimed p' else 0)
      ≤ one_if (is_ready (m.run.status j))
        + starts j m.run.events
        + (if j == i then is_claimed p else 0)
        + claims j p
unfolding enqueue_skip notify_dependencies record_failure status_of
Move-live j (start) = ground arith
Move-live j mv = ground (arith, guard mv)

pub Move-claims :
    {g : Graph} {i : ℕ} {m m' : Shared} {p p' : Pc} (j : ℕ)
    → Move g i m p m' p'
    → 0 < claims j p'
    → (0 < claims j p) ⊎ (m'.run.unmet_deps j ≡ 0)
Move-claims j (lower_last h) c = ground (arith, h)
Move-claims j mv c = ground (arith, guard mv)

pub Move-is_main :
    {g : Graph} {i : ℕ} {m m' : Shared} {p p' : Pc}
    → Move g i m p m' p'
    → i ≡ g.size
    → is_main p ≡ true
    → is_main p' ≡ true
Move-is_main (call_back h) last main = ground (arith, main)
Move-is_main mv last main = ground (arith, main, last)

-- The thread of run() lowers nothing.
pub Move-main :
    {g : Graph} {i : ℕ} {m m' : Shared} {p p' : Pc} (s : ℕ)
    → Move g i m p m' p'
    → is_main p ≡ true
    → m'.run.unmet_deps s ≡ m.run.unmet_deps s
unfolding enqueue_skip notify_dependencies record_failure
Move-main s (call_back h) main = refl
Move-main s mv main = ground (arith, main)
