-- ===== src/Run/Threaded/Claims.antt =====
-- What the threads of a run hold: the right to submit a job, and the edges a job has still to lower.
use sub0pipeline.Prelude.{
  ℕ, suc, ◌+◌, ◌^◌, ◌≤◌, ◌<◌, ◌≡◌, Bool, true, false, ◌&&◌, ◌==◌, if◌then◌else◌, count, total,
}
use sub0pipeline.Types.{JobStatus, unexpected, status_of, running}
use sub0pipeline.Graph.{Graph, Node}
use sub0pipeline.Run.{is_ready}
use sub0pipeline.Run.Base.{waiting, pend, one_if}
use sub0pipeline.Run.Log.{starts, tolerated}
use sub0pipeline.Run.Threaded.{
  Pc, Call, idle, claimed, calling, returned, stored, counted, failing, recording, releasing,
  deciding, claiming, awaiting_all, over, submitting, rejected, recording_rejection, rooting,
  within,
}
use sub0pipeline.Run.Threaded.Schedule.{System}

abbrev pub submits : ℕ → Call → ℕ
submits s (submitting x) = if s == x then 1 else 0
submits s (rejected x) = if s == x then 1 else 0
submits s (recording_rejection x true) = if s == x then 1 else 0
submits s _ = 0

abbrev pub decides : ℕ → Call → ℕ
decides s (deciding x) = if s == x then 1 else 0
decides s _ = 0

-- How often a thread still has to submit job `s`, if it does not find that the run has failed, or to
-- record that the submission of `s` failed.
abbrev pub holds : ℕ → Pc → ℕ
holds s (rooting rest) = count s rest
holds s (within c k) = submits s c + holds s k
holds s _ = 0

-- The thread has lowered the last dependency of job `s`.
abbrev pub claims : ℕ → Pc → ℕ
claims s (within (claiming x) k) = (if s == x then 1 else 0) + claims s k
claims s (within c k) = claims s k
claims s _ = 0

-- A callback of the job runs.
abbrev pub active : Pc → ℕ
active idle = 0
active _ = 1

abbrev pub is_claimed : Pc → ℕ
is_claimed claimed = 1
is_claimed (within c k) = is_claimed k
is_claimed _ = 0

-- The edges from a job to `s` that the job has still to lower, of `full` edges: those of the rest of
-- its release loop; all of them before that loop; none after it.
abbrev pub unpaid : (s full : ℕ) (passed : Bool) → Pc → ℕ
unpaid s full passed (stored o) = full
unpaid s full passed (counted o d) = full
unpaid s full passed (releasing rest) = count s rest
unpaid s full passed (within c k) = decides s c + unpaid s full passed k
unpaid s full passed _ = if passed then 0 else full

-- What the place of a thread says about the status of its job.
abbrev pub Own : Node → JobStatus → Pc → Type 0
Own nd st claimed = st ≡ running
Own nd st calling = st ≡ running
Own nd st (returned o) = st ≡ running
Own nd st (stored o) = st ≡ status_of o
Own nd st (counted o d) = st ≡ status_of o
Own nd st (failing e) = (tolerated nd.optional st ≡ false) × (st ≡ status_of (unexpected e))
Own nd st (recording e) = (tolerated nd.optional st ≡ false) × (st ≡ status_of (unexpected e))
Own nd st (releasing rest) = tolerated nd.optional st ≡ true
Own nd st (within c k) = Own nd st k
Own nd st _ = Unit {0}

-- A call that does not take part in a release loop.
abbrev pub is_plain : Call → Bool
is_plain (deciding x) = false
is_plain (claiming x) = false
is_plain _ = true

-- The places of the thread that called run().
abbrev pub is_main : Pc → Bool
is_main (rooting rest) = true
is_main awaiting_all = true
is_main over = true
is_main (within c k) = is_plain c && is_main k
is_main _ = false

-- The edges to `s` that job `p` has still to lower.
abbrev pub owed : Graph → ℕ → System → ℕ → ℕ
owed g s t p =
    unpaid s (count s (g.node p).successors) (tolerated (g.node p).optional (t.shared.run.status p))
      (t.pc p)

-- Not zero if job `i` is ready, or its body has been called or is about to be.
abbrev pub live : ℕ → System → ℕ
live i t =
    one_if (is_ready (t.shared.run.status i)) + starts i t.shared.run.events + is_claimed (t.pc i)

pub record Inv (g : Graph) (t : System) : Type 0 where
  pub own : (i : ℕ) → i < g.size → Own (g.node i) (t.shared.run.status i) (t.pc i)
  pub main : is_main (t.pc g.size) ≡ true
  pub single :
      (i : ℕ)
      → i < g.size
      → total (suc g.size) (λ p. holds i (t.pc p))
          + t.shared.accepted i
          + active (t.pc i)
          + pend (t.shared.run.status i)
        ≤ 1
  pub lowered : (i : ℕ) → i < g.size → total g.size (owed g i t) ≤ t.shared.run.unmet_deps i
  pub small : (i : ℕ) → i < g.size → t.shared.run.unmet_deps i < 2 ^ 32
  pub zeroed :
      (p : ℕ)
      → p ≤ g.size
      → (i : ℕ) → i < g.size
      → 0 < claims i (t.pc p)
      → t.shared.run.unmet_deps i ≡ 0
  pub freed : (i : ℕ) → i < g.size → 0 < live i t → total g.size (owed g i t) ≡ 0
  pub calls :
      (i : ℕ)
      → i < g.size
      → starts i t.shared.run.events
          + one_if (waiting (t.shared.run.status i))
          + is_claimed (t.pc i)
        ≤ 1
