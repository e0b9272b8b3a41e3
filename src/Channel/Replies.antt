-- ===== src/Channel/Replies.antt =====
-- RemoteChannel::handleReply, failPending and onClosed. Whether a request's job was stopped is an argument.
use sub0pipeline.Prelude.{
  ℕ, zero, suc, ◌+◌, Bool, true, Option, none, some, List, [], ◌∷◌, ◌++◌, ◌==◌, if◌then◌else◌,
  length,
}
use sub0pipeline.Types.{PipelineError, Expected, value, unexpected}
use sub0pipeline.Wire.{
  no_payload, inlined, handle, reference, Payload, JobResult, SubGraphReply, first_failure,
}
use sub0pipeline.Channel.{
  closed, is_handshaking, ConnectError, transport_closed, Channel, Submission, Answer, succeed,
  fail, error_byte, settle, no_strategy,
}

-- A result with its strategy output; `receive` is the strategy's answer.
unfoldable pub collect_result : Expected Payload → JobResult → JobResult
collect_result receive r = elim (r.output.kind) [
  | reference ↦ elim receive [
    | value p ↦ record r { output = p }
    | unexpected e ↦ record r {
      output = record { kind = no_payload; bytes = [] };
      status = 4;
      error = error_byte e;
    }
  ]
  | no_payload ↦ r
  | inlined ↦ r
  | handle ↦ r
]

-- The loop of handleReply over the results.
unfoldable pub collect : (ℕ → Expected Payload) → ℕ → SubGraphReply → SubGraphReply
unfolding collect_result
collect receive i [] = []
collect receive i (r ∷ rs) = collect_result (receive i) r ∷ collect receive (i + 1) rs

abbrev pub result_at : ℕ → SubGraphReply → Option JobResult
result_at i [] = none
result_at zero (r ∷ rs) = some r
result_at (suc i) (r ∷ rs) = result_at i rs

-- The error of the lowest failure: kCancelled, kTimedOut or the result's own.
abbrev pub failure_byte : JobResult → ℕ
failure_byte r =
    if r.status == 7
    then error_byte PipelineError.cancelled
    else if r.status == 6
    then error_byte PipelineError.timeout
    else r.error

abbrev pub failure_at : Option JobResult → Answer
failure_at none = fail 0
failure_at (some r) = fail (failure_byte r)

-- What handleReply gives the Completion of a request with that many jobs.
unfoldable pub reply_answer : Bool → SubGraphReply → ℕ → Answer
unfolding first_failure
reply_answer stopped reply jobs = if stopped then succeed else elim (first_failure reply) [
  | some i ↦ failure_at (result_at i reply)
  | none ↦ if length reply == jobs then succeed else fail (error_byte PipelineError.job_failed)
]

-- What a call leaves: the answers, the request that goes to launch, and the channel.
pub record Settled : Type 0 where
  pub answers : List (ℕ × Answer)
  pub next : Option Submission
  pub channel : Channel

-- handleReply for a frame that decodes; an unknown id changes nothing.
unfoldable pub handle_reply :
    (ℕ → Expected Payload) → (ℕ → Bool) → ℕ → SubGraphReply → Channel → Settled
unfolding settle collect reply_answer
handle_reply receive stopped id reply c =
    let results =
      collect
        (if no_strategy c.strategy then (λ i. unexpected PipelineError.job_failed) else receive) 0
        reply in
    elim (settle id c) [
      | none ↦ record { answers = []; next = none; channel = c }
      | some (s, next, after) ↦ record {
        answers = (s.ticket, reply_answer (stopped s.ticket) results (length s.request.jobs)) ∷ [];
        next = next;
        channel = after;
      }
    ]

-- failPending
unfoldable pub fail_pending : ℕ → PipelineError → Channel → Settled
unfolding settle
fail_pending id error c = elim (settle id c) [
  | none ↦ record { answers = []; next = none; channel = c }
  | some (s, next, after) ↦ record {
    answers = (s.ticket, fail (error_byte error)) ∷ [];
    next = next;
    channel = after;
  }
]

unfoldable pub unavailable_pending : List (ℕ × Submission) → List (ℕ × Answer)
unavailable_pending [] = []
unavailable_pending ((k, s) ∷ rest) =
    (s.ticket, fail (error_byte PipelineError.unavailable)) ∷ unavailable_pending rest

unfoldable pub unavailable_queued : List Submission → List (ℕ × Answer)
unavailable_queued [] = []
unavailable_queued (s ∷ rest) =
    (s.ticket, fail (error_byte PipelineError.unavailable)) ∷ unavailable_queued rest

abbrev pub closed_while : Bool → Option ConnectError → Option ConnectError
closed_while true none = some transport_closed
closed_while _ e = e

-- onClosed
unfoldable pub on_closed : Channel → Settled
unfolding unavailable_pending unavailable_queued
on_closed c = record {
  answers = unavailable_pending c.pending ++ unavailable_queued c.queued;
  next = none;
  channel = record c {
    rejected = closed_while (is_handshaking c.state) c.rejected;
    state = closed;
    pending = [];
    queued = [];
  };
}
