-- ===== src/Worker.antt =====
-- WorkerHost of include/sub0pipeline/remote/worker_host.hpp and src/remote/worker_host.cpp: what a thread
-- does while it holds the mutex is one function. A Work has a number, `pointer`, in place of its address.
-- What strategies and the store answer, and the texts, are arguments; the run of a request's pipeline is
-- given by what it leaves for each job.
pub mod Frames
pub mod Replies
pub mod System
pub mod Counts
pub mod Steps
pub mod Outputs
pub mod Sent
pub mod Capacity
pub mod Pipeline
pub mod Emplacing
pub mod Building
pub mod Answers
pub mod Bodies
pub mod Rounds
pub mod Outcomes
use sub0pipeline.Prelude.{
  ℕ, zero, suc, ◌+◌, Bool, true, false, ◌||◌, not, Option, none, some, List, [], ◌∷◌, ◌++◌, leb,
  ◌==◌, if◌then◌else◌, dec32, inc32,
}
use sub0pipeline.Wire.{PayloadKind, no_payload, reference, Payload, JobSpec, SubGraphRequest}

pub record Options : Type 0 where
  pub max_concurrent_requests : ℕ
  pub max_inline_bytes : ℕ
  pub fingerprint : ℕ  -- registry_.fingerprint()

pub record Work : Type 0 where
  pub pointer : ℕ
  pub id : ℕ
  pub request : SubGraphRequest
  pub inputs : List Payload

pub record WorkerHost : Type 0 where
  pub options : Options
  pub handshaken : Bool
  pub closed : Bool
  pub admitted : ℕ
  pub inline_limit : ℕ
  pub queue : List Work
  pub active : List (ℕ × Work)
  pub strategy : Option (List ℕ)
  pub stopped : List ℕ  -- the Works whose stop was requested

unfoldable pub new_host : Options → WorkerHost
new_host o = record {
  options = o;
  handshaken = false;
  closed = false;
  admitted = 0;
  inline_limit = 0;
  queue = [];
  active = [];
  strategy = none;
  stopped = [];
}

unfoldable pub erase_active : ℕ → List (ℕ × Work) → List (ℕ × Work)
erase_active id [] = []
erase_active id ((k, w) ∷ rest) = if k == id then rest else (k, w) ∷ erase_active id rest

unfoldable pub find_active : ℕ → List (ℕ × Work) → Option Work
find_active id [] = none
find_active id ((k, w) ∷ rest) = if k == id then some w else find_active id rest

-- The first critical section of a round of runner: the Work it takes; `none` while the queue is empty.
unfoldable pub take_work : WorkerHost → Option (Work × WorkerHost)
unfolding erase_active
take_work h = elim (h.queue) [
  | [] ↦ none
  | w ∷ rest ↦ some (w, record h { queue = rest; active = (w.id, w) ∷ erase_active w.id h.active })
]

-- The second one, after run.
unfoldable pub finish_work : Work → WorkerHost → WorkerHost
unfolding erase_active
finish_work w h = record h { active = erase_active w.id h.active; admitted = dec32 h.admitted }

-- The loop over a request's inputs; `receive` is what the strategy makes of a reference.
unfoldable pub resolve : (ℕ → Option Payload) → ℕ → List JobSpec → List Payload × Bool
resolve receive i [] = ([], true)
resolve receive i (job ∷ jobs) =
    let rest = resolve receive (i + 1) jobs in
    elim (job.input.kind) [
      | PayloadKind.reference ↦ elim (receive i) [
        | none ↦ (record { kind = no_payload; bytes = [] } ∷ rest.0, false)
        | some p ↦ (p ∷ rest.0, rest.1)
      ]
      | PayloadKind.no_payload ↦ (job.input ∷ rest.0, rest.1)
      | PayloadKind.inlined ↦ (job.input ∷ rest.0, rest.1)
      | PayloadKind.handle ↦ (job.input ∷ rest.0, rest.1)
    ]

-- What becomes of a request frame.
pub data Admission : Type 0 where
  closes : Admission
  refused : (id : ℕ) (resolved : Bool) → Admission
  admitted : ℕ → Admission

-- onFrameBuffer for a request frame, which has been decoded and whose inputs are resolved.
unfoldable pub admit :
    ℕ → Option (ℕ × SubGraphRequest) → List Payload × Bool → WorkerHost → Admission × WorkerHost
admit pointer none inputs h = (closes, h)
admit pointer (some (id, request)) inputs h =
    if not h.handshaken
    then (closes, h)
    else if leb h.options.max_concurrent_requests h.admitted || not inputs.1
    then (refused id inputs.1, h)
    else (
      Admission.admitted id,
      record h {
        admitted = inc32 h.admitted;
        queue =
            h.queue
            ++ record { pointer = pointer; id = id; request = request; inputs = inputs.0 } ∷ [];
      },
    )

-- The loop over the queue for a cancel frame: the last Work with the id.
unfoldable pub cancel_queued : ℕ → Option Work → List Work → Option Work
cancel_queued id target [] = target
cancel_queued id target (w ∷ ws) = cancel_queued id (if w.id == id then some w else target) ws

-- onFrameBuffer for a cancel frame that names `id`.
unfoldable pub cancel : ℕ → WorkerHost → WorkerHost
unfolding find_active cancel_queued
cancel id h = elim (cancel_queued id (find_active id h.active) h.queue) [
  | none ↦ h
  | some w ↦ record h { stopped = w.pointer ∷ h.stopped }
]

unfoldable pub pointers_active : List (ℕ × Work) → List ℕ
pointers_active [] = []
pointers_active ((k, w) ∷ rest) = w.pointer ∷ pointers_active rest

unfoldable pub pointers_of : List Work → List ℕ
pointers_of [] = []
pointers_of (w ∷ ws) = w.pointer ∷ pointers_of ws

-- serve, once the transport is closed: the queue is dropped, and all Works are stopped.
unfoldable pub shut_down : WorkerHost → WorkerHost
unfolding pointers_active pointers_of
shut_down h = record h {
  queue = [];
  stopped = pointers_active h.active ++ (pointers_of h.queue ++ h.stopped);
}

-- onClosed
unfoldable pub on_closed : WorkerHost → WorkerHost
on_closed h = record h { closed = true }
