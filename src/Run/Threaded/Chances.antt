-- ===== src/Run/Threaded/Chances.antt =====
-- What each thread of a run can do next, and runs that follow a schedule.
use sub0pipeline.Prelude.{
  ℕ, Bool, true, false, suc, ◌≤◌, ◌≡◌, ◌≢◌, refl, inl, inr, true, false, List, [], ◌∷◌, arith,
  update, Bool-cases, List-cases, dec_lt, ℕ_discrete, dec32,
}
use sub0pipeline.Types.{status_of, JobStatus, pending, ready}
use sub0pipeline.Graph.{Graph}
use sub0pipeline.Invoke.{JobEnv, invoke}
use sub0pipeline.Run.{
  has_fatal_failure, is_pending, is_ready, notify_dependencies, record_failure, enqueue_skip,
}
use sub0pipeline.Run.Threaded.{
  awaiting_all, over, Pc, idle, entered, checked, claimed, calling, returned, stored, counted,
  failing, recording, releasing, deciding, claiming, submitting, rejected, recording_rejection,
  counting_rejection, reporting_rejection, skip_each, skipping, skip_reading, skip_queueing,
  skip_reporting, skip_locking, rooting, within, Shared, Move, call_back, dispatch_skips,
  dispatch_goes, claim, claim_lost, start, call, store_status, count_job, report_job,
  report_failure, record_job, release_end, release_skips, release_goes, lower_last, lower_one,
  make_ready, not_pending, accept, reject, fail_ready, fail_other, record_rejection, record_only,
  count_rejection, report_rejection, skip_end, skip_next, skip_joins, skip_drains, read_next,
  drain_end, queue_skip, count_skip, report_skip, lock_again, roots_end, root_skips, root_goes,
}
use sub0pipeline.Run.Threaded.Schedule.{pick, Steps, one_more, System}
use sub0pipeline.Run.Threaded.Duties.{shaped}
use sub0pipeline.Run.Threaded.Books.{locks}

-- What a thread can do: nothing more, wait for skipMutex, or move.
pub data Chance (g : Graph) (i : ℕ) (m : Shared) (p : Pc) : Type 0 where
  rests : (p ≡ idle) × (m.accepted i ≡ 0) → Chance g i m p
  waits_all : p ≡ awaiting_all → Chance g i m p
  returned_all : p ≡ over → Chance g i m p
  waits_lock : m.locked ≡ true → locks p ≡ 0 → Chance g i m p
  moves : (m' : Shared) (p' : Pc) → Move g i m p m' p' → Chance g i m p

-- What the environment decides: what each job's call sees, and which dispatches are rejected.
pub record World : Type 0 where
  pub env : ℕ → JobEnv
  pub refuses : ℕ → Bool

pub is_ready-true : (st : JobStatus) → is_ready st ≡ true → st ≡ ready
is_ready-true st h = ground (arith, h)

pub is_ready-false : (st : JobStatus) → is_ready st ≡ false → st ≢ ready
is_ready-false st h = ground (arith, h)

pub is_pending-true : (st : JobStatus) → is_pending st ≡ true → st ≡ pending
is_pending-true st h = ground (arith, h)

pub is_pending-false : (st : JobStatus) → is_pending st ≡ false → st ≢ pending
is_pending-false st h = ground (arith, h)

pub locks-skipping :
    (s : ℕ) (k : Pc) → shaped (within (skipping s) k) ≡ true → locks (within (skipping s) k) ≡ 0
locks-skipping s k loop = ground (arith, loop)

pub locks-skip_locking :
    (k : Pc) → shaped (within skip_locking k) ≡ true → locks (within skip_locking k) ≡ 0
locks-skip_locking k loop = ground (arith, loop)

unfoldable pub chance :
    (g : Graph) (w : World) (i : ℕ) (m : Shared) (p : Pc) → shaped p ≡ true → Chance g i m p
chance g w i m idle loop = elim (dec_lt 0 (m.accepted i)) [
  | yes some ↦ moves _ _ (call_back some)
  | no none ↦ rests (refl, omega arith)
]
chance g w i m entered loop = elim (Bool-cases (has_fatal_failure m.run)) [
  | inl bad ↦ moves _ _ (dispatch_skips bad)
  | inr good ↦ moves _ _ (dispatch_goes good)
]
chance g w i m checked loop = elim (Bool-cases (is_ready (m.run.status i))) [
  | inl now ↦ moves _ _ (claim (is_ready-true (m.run.status i) now))
  | inr not_now ↦ moves _ _ (claim_lost (is_ready-false (m.run.status i) not_now))
]
chance g w i m claimed loop = moves _ _ start
chance g w i m calling loop = moves _ _ (call (w.env i))
chance g w i m (returned o) loop = moves _ _ store_status
chance g w i m (stored o) loop = moves _ _ count_job
chance g w i m (counted o d) loop = moves _ _ report_job
chance g w i m (failing e) loop = moves _ _ report_failure
chance g w i m (recording e) loop = moves _ _ record_job
chance g w i m (releasing []) loop = moves _ _ release_end
chance g w i m (releasing (s ∷ rest)) loop = elim (Bool-cases (has_fatal_failure m.run)) [
  | inl bad ↦ moves _ _ (release_skips bad)
  | inr good ↦ moves _ _ (release_goes good)
]
chance g w i m (rooting []) loop = moves _ _ roots_end
chance g w i m (rooting (s ∷ rest)) loop = elim (Bool-cases (has_fatal_failure m.run)) [
  | inl bad ↦ moves _ _ (root_skips bad)
  | inr good ↦ moves _ _ (root_goes good)
]
chance g w i m awaiting_all loop = waits_all refl
chance g w i m over loop = returned_all refl
chance g w i m (within (deciding s) k) loop = elim (ℕ_discrete (dec32 (m.run.unmet_deps s)) 0) [
  | yes last ↦ moves _ _ (lower_last last)
  | no more ↦ moves _ _ (lower_one more)
]
chance g w i m (within (claiming s) k) loop = elim (Bool-cases (is_pending (m.run.status s))) [
  | inl now ↦ moves _ _ (make_ready (is_pending-true (m.run.status s) now))
  | inr not_now ↦ moves _ _ (not_pending (is_pending-false (m.run.status s) not_now))
]
chance g w i m (within (submitting s) k) loop = elim (w.refuses s) [
  | true ↦ moves _ _ reject
  | false ↦ moves _ _ accept
]
chance g w i m (within (rejected s) k) loop = elim (Bool-cases (is_ready (m.run.status s))) [
  | inl now ↦ moves _ _ (fail_ready (is_ready-true (m.run.status s) now))
  | inr not_now ↦ moves _ _ (fail_other (is_ready-false (m.run.status s) not_now))
]
chance g w i m (within (recording_rejection s true) k) loop = moves _ _ record_rejection
chance g w i m (within (recording_rejection s false) k) loop = moves _ _ record_only
chance g w i m (within (counting_rejection s) k) loop = moves _ _ count_rejection
chance g w i m (within (reporting_rejection s d) k) loop = moves _ _ report_rejection
chance g w i m (within (skip_each []) k) loop = moves _ _ skip_end
chance g w i m (within (skip_each (s ∷ rest)) k) loop = moves _ _ skip_next
chance g w i m (within (skipping s) k) loop = elim (Bool-cases m.locked) [
  | inl held ↦ waits_lock held (locks-skipping s k loop)
  | inr free ↦ elim (Bool-cases m.run.draining_skips) [
    | inl other ↦ moves _ _ (skip_joins free other)
    | inr mine ↦ moves _ _ (skip_drains free mine)
  ]
]
chance g w i m (within skip_reading k) loop = elim (List-cases m.run.skipped_jobs) [
  | inl none ↦ moves _ _ (drain_end none)
  | inr (idx, rest, e) ↦ moves _ _ (read_next e)
]
chance g w i m (within (skip_queueing idx []) k) loop = moves _ _ count_skip
chance g w i m (within (skip_queueing idx (s ∷ rest)) k) loop = moves _ _ queue_skip
chance g w i m (within (skip_reporting idx d) k) loop = moves _ _ report_skip
chance g w i m (within skip_locking k) loop = elim (Bool-cases m.locked) [
  | inl held ↦ waits_lock held (locks-skip_locking k loop)
  | inr free ↦ moves _ _ (lock_again free)
]

-- A run, as far as it has come.
pub record Driven (g : Graph) : Type 0 where
  pub count : ℕ
  pub system : System
  pub steps : Steps g count system

-- The turn of thread `q`; a thread that cannot move passes.
unfoldable pub turn :
    {g : Graph} (q : ℕ) (d : Driven g)
    → q ≤ g.size
    → Chance g q d.system.shared (d.system.pc q)
    → Driven g
turn q d le (moves m' p' mv) = record {
  count = suc d.count;
  system = record { shared = m'; pc = update d.system.pc q p' };
  steps = one_more d.steps (pick q le mv);
}
turn q d le _ = d

-- The threads take their turns as a schedule says.
unfoldable pub drive : {g : Graph} → World → List ℕ → Driven g → Driven g
unfolding chance turn Bool-cases List-cases dec_lt ℕ_discrete invoke status_of notify_dependencies
    record_failure enqueue_skip
drive w [] d = d
drive {g} w (q ∷ qs) d = drive w qs (elim (dec_lt g.size q) [
  | yes out ↦ d
  | no inside ↦ elim (Bool-cases (shaped (d.system.pc q))) [
    | inl loop ↦ turn q d (omega arith) (chance g w q d.system.shared (d.system.pc q) loop)
    | inr odd ↦ d
  ]
])
