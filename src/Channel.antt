-- ===== src/Channel.antt =====
-- RemoteChannel of include/sub0pipeline/remote/channel.hpp and src/remote/channel.cpp: what a thread does
-- while it holds the mutex is one function. A Completion is its number, `ticket`; what it is given is an
-- answer of the function. A strategy is its name; what it sends and receives is an argument. Reply
-- handlers, messages and stop callbacks are left out.
pub mod Handshake
pub mod Replies
pub mod System
pub mod Invariant
pub mod Queue
pub mod Launches
pub mod Conservation
pub mod Results
pub mod Agreement
pub mod Terms
use sub0pipeline.Prelude.{
  ℕ, zero, suc, ◌+◌, ◌-◌, ◌%◌, ◌^◌, Bool, true, false, ◌&&◌, ◌||◌, not, Option, none, some, List,
  [], ◌∷◌, ◌++◌, ltb, leb, ◌==◌, if◌then◌else◌, length,
}
use sub0pipeline.Types.{PipelineError, Expected, value, unexpected}
use sub0pipeline.Wire.{
  PayloadKind, inlined, Payload, JobSpec, SubGraphRequest, StrategyOffer, Hello,
}
use sub0pipeline.Wire.Encode.{encode_request}

-- State
pub data ConnectionState : Type 0 where
  idle handshaking connected closed : ConnectionState

pub data ConnectError : Type 0 where
  version_mismatch fingerprint_mismatch transport_closed timeout protocol : ConnectError

pub record Options : Type 0 where
  pub expected_fingerprint : ℕ
  pub max_in_flight : ℕ
  pub queue_capacity : ℕ
  pub max_inline_bytes : ℕ

-- A request and its Completion: Queued, and Pending without its id.
pub record Submission : Type 0 where
  pub ticket : ℕ
  pub request : SubGraphRequest

-- What a Completion is given: succeed, or fail with a PipelineError's byte.
pub data Answer : Type 0 where
  succeed : Answer
  fail : ℕ → Answer

pub record Channel : Type 0 where
  pub options : Options
  pub state : ConnectionState
  pub rejected : Option ConnectError
  pub peer : Option Hello
  pub in_flight_limit : ℕ
  pub inline_limit : ℕ
  pub next_id : ℕ
  pub pending : List (ℕ × Submission)
  pub candidates : List StrategyOffer
  pub strategy : Option (List ℕ)
  pub queued : List Submission

-- The constructor.
unfoldable pub new_channel : Options → Channel
new_channel o = record {
  options = o;
  state = idle;
  rejected = none;
  peer = none;
  in_flight_limit = 0;
  inline_limit = 0;
  next_id = 1;
  pending = [];
  candidates = [];
  strategy = none;
  queued = [];
}

abbrev pub error_byte : PipelineError → ℕ
error_byte PipelineError.timeout = 0
error_byte PipelineError.job_failed = 1
error_byte PipelineError.cyclic_dependency = 2
error_byte PipelineError.unknown_job = 3
error_byte PipelineError.not_armed = 4
error_byte PipelineError.not_on_demand = 5
error_byte PipelineError.cancelled = 6
error_byte PipelineError.busy = 7
error_byte PipelineError.deadline_unavailable = 8
error_byte PipelineError.unavailable = 9

abbrev pub is_connected : ConnectionState → Bool
is_connected connected = true
is_connected _ = false

abbrev pub is_handshaking : ConnectionState → Bool
is_handshaking handshaking = true
is_handshaking _ = false

abbrev pub is_inline : PayloadKind → Bool
is_inline inlined = true
is_inline _ = false

abbrev pub is_large : ℕ → Payload → Bool
is_large limit p = is_inline p.kind && ltb limit (length p.bytes)

-- The loop of send over the inputs without a strategy.
unfoldable pub any_large : ℕ → List JobSpec → Bool
any_large limit [] = false
any_large limit (job ∷ jobs) = is_large limit job.input || any_large limit jobs

abbrev pub no_strategy : Option (List ℕ) → Bool
no_strategy none = true
no_strategy (some name) = false

-- pending_.find
unfoldable pub find_pending : ℕ → List (ℕ × Submission) → Option Submission
find_pending id [] = none
find_pending id ((k, s) ∷ rest) = if k == id then some s else find_pending id rest

-- pending_.emplace, which keeps an entry that is there.
unfoldable pub emplace_pending : ℕ → Submission → List (ℕ × Submission) → List (ℕ × Submission)
unfolding find_pending
emplace_pending id s entries = elim (find_pending id entries) [
  | none ↦ (id, s) ∷ entries
  | some _ ↦ entries
]

-- pending_.erase
unfoldable pub erase_pending : ℕ → List (ℕ × Submission) → List (ℕ × Submission)
erase_pending id [] = []
erase_pending id ((k, s) ∷ rest) = if k == id then rest else (k, s) ∷ erase_pending id rest

-- What send does under the lock: it answers at once, it queues the request, or it registers it.
pub data Sent : Type 0 where
  refused : PipelineError → Sent
  waiting : Sent
  registered : ℕ → Sent

-- RemoteChannel::send up to the unlock.
unfoldable pub send : Submission → Channel → Sent × Channel
unfolding any_large emplace_pending
send s c =
    if not (is_connected c.state)
    then (refused PipelineError.unavailable, c)
    else if no_strategy c.strategy && any_large c.inline_limit s.request.jobs
    then (refused PipelineError.job_failed, c)
    else if leb c.in_flight_limit (length c.pending)
    then (if ltb (length c.queued) c.options.queue_capacity
        then (waiting, record c { queued = c.queued ++ s ∷ [] })
        else (refused PipelineError.busy, c))
    else (
      registered c.next_id,
      record c {
        next_id = (c.next_id + 1) % 2 ^ 64;
        pending = emplace_pending c.next_id s c.pending;
      },
    )

-- The loop of send that hands large inputs to the strategy; `transfer` is its answer for each input.
unfoldable pub references_of :
    (ℕ → Expected (List ℕ)) → ℕ → ℕ → List JobSpec → Expected (List (Option Payload))
references_of transfer limit i [] = value []
references_of transfer limit i (job ∷ jobs) =
    let rest = references_of transfer limit (i + 1) jobs in
    let keep : Option Payload → Expected (List (Option Payload)) =
      λ o. elim rest [ value os ↦ value (o ∷ os) | unexpected e ↦ unexpected e ] in
    if is_large limit job.input
    then elim (transfer i) [
      | value bytes ↦ keep (some (record { kind = PayloadKind.reference; bytes = bytes }))
      | unexpected e ↦ unexpected e
    ]
    else keep none

-- RemoteChannel::send from the unlock on: the error that goes to failPending, if there is one.
-- `transport` says whether transport_.send takes the frame.
unfoldable pub dispatch :
    (ℕ → Expected (List ℕ)) → (List ℕ → Bool) → ℕ → SubGraphRequest → Channel → Option PipelineError
unfolding references_of encode_request
dispatch transfer transport id request c =
    let overrides : Expected (List (Option Payload)) =
      if no_strategy c.strategy
      then value []
      else references_of transfer c.inline_limit 0 request.jobs in
    elim overrides [
      | unexpected e ↦ some e
      | value os ↦ elim (encode_request id request os) [
        | none ↦ some PipelineError.job_failed
        | some frame ↦ if transport frame then none else some PipelineError.unavailable
      ]
    ]

-- takeQueued
unfoldable pub take_queued : Channel → Option Submission × Channel
take_queued c = elim (c.queued) [ [] ↦ (none, c) | s ∷ rest ↦ (some s, record c { queued = rest }) ]

-- What a reply, or an error of a request that was not sent, takes from the channel: the request, and the
-- next one from the queue.
unfoldable pub settle : ℕ → Channel → Option (Submission × Option Submission × Channel)
unfolding find_pending erase_pending take_queued
settle id c = elim (find_pending id c.pending) [
  | none ↦ none
  | some s ↦
      let taken = take_queued (record c { pending = erase_pending id c.pending }) in
      some (s, taken.0, taken.1)
]

-- freeCapacity
unfoldable pub free_capacity : Channel → ℕ
free_capacity c =
    if not (is_connected c.state)
    then 0
    else (let in_flight = length c.pending % 2 ^ 32 in
        let queued = length c.queued % 2 ^ 32 in
        ((if ltb in_flight c.in_flight_limit then c.in_flight_limit - in_flight else 0)
          + (if ltb queued c.options.queue_capacity then c.options.queue_capacity - queued else 0))
        % 2 ^ 32)
