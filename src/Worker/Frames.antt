-- ===== src/Worker/Frames.antt =====
-- The frames that WorkerHost of src/remote/worker_host.cpp answers. A factory that makes no strategy is
-- `none`; what a strategy answers to an offer is an argument, `accepts`.
use sub0pipeline.Prelude.{
  same_bytes, ℕ, Bool, true, false, ◌||◌, not, Option, none, some, List, [], ◌∷◌, ◌==◌,
  if◌then◌else◌,
}
use sub0pipeline.Types.{PipelineError}
use sub0pipeline.Wire.{
  FrameType, hello_ack, no_payload, JobSpec, SubGraphReply, SubGraphRequest, StrategyOffer, Hello,
  Payload, frame_type,
}
use sub0pipeline.Wire.Encode.{encode_hello, encode_reject, encode_reply}
use sub0pipeline.Wire.Decode.{decode_request, decode_cancel}
use sub0pipeline.Wire.Handshake.{decode_hello}
use sub0pipeline.Channel.{error_byte, no_strategy}
use sub0pipeline.Channel.Handshake.{protocol_major, protocol_minor, min}
use sub0pipeline.Worker.{WorkerHost, Admission, closes, refused, admitted, resolve, admit, cancel}

-- The inner loop over the factories: the setup of the strategy with the offer's name.
unfoldable pub accept_from :
    (StrategyOffer → Option (List ℕ)) → StrategyOffer → List (Option (List ℕ)) → Option (List ℕ)
accept_from accepts o [] = none
accept_from accepts o (none ∷ factories) = accept_from accepts o factories
accept_from accepts o (some name ∷ factories) =
    if same_bytes name o.name then accepts o else accept_from accepts o factories

-- The loop over the offers, in the coordinator's order.
unfoldable pub accept_first :
    (StrategyOffer → Option (List ℕ))
    → List (Option (List ℕ))
    → List StrategyOffer
    → Option StrategyOffer
unfolding accept_from
accept_first accepts factories [] = none
accept_first accepts factories (o ∷ os) = elim (accept_from accepts o factories) [
  | none ↦ accept_first accepts factories os
  | some setup ↦ some (record { name = o.name; setup = setup })
]

-- What a frame leaves: the frames that are sent, whether the transport is closed, and the host.
pub record Handled : Type 0 where
  pub sent : List (List ℕ)
  pub closes : Bool
  pub host : WorkerHost

abbrev pub chosen_of : Option StrategyOffer → List StrategyOffer
chosen_of none = []
chosen_of (some o) = o ∷ []

abbrev pub name_of : Option StrategyOffer → Option (List ℕ)
name_of none = none
name_of (some o) = some o.name

-- A hello whose version and fingerprint are the worker's.
unfoldable pub acknowledge :
    (StrategyOffer → Option (List ℕ)) → List (Option (List ℕ)) → Hello → WorkerHost → Handled
unfolding accept_first encode_hello
acknowledge accepts factories offered h =
    let chosen = accept_first accepts factories offered.strategies in
    record {
      sent =
          encode_hello hello_ack (record {
            major = protocol_major;
            minor = protocol_minor;
            fingerprint = h.options.fingerprint;
            max_in_flight = h.options.max_concurrent_requests;
            max_inline_bytes = h.options.max_inline_bytes;
            strategies = chosen_of chosen;
          })
          ∷ [];
      closes = false;
      host = record h {
        handshaken = true;
        inline_limit = min h.options.max_inline_bytes offered.max_inline_bytes;
        strategy = name_of chosen;
      };
    }

-- onFrameBuffer for a hello; `details` are the texts of the two rejections. RejectReason::kVersion is 1.
unfoldable pub on_hello :
    (StrategyOffer → Option (List ℕ))
    → List (Option (List ℕ))
    → (ℕ → List ℕ)
    → List ℕ
    → WorkerHost
    → Handled
unfolding decode_hello encode_reject acknowledge
on_hello accepts factories details frame h = elim (decode_hello frame) [
  | none ↦ record { sent = []; closes = true; host = h }
  | some offered ↦
      let reason = if not (offered.major == protocol_major) then 1 else 2 in
      if h.handshaken
      then record { sent = []; closes = true; host = h }
      else if not (offered.major == protocol_major)
          || not (offered.fingerprint == h.options.fingerprint)
      then record {
        sent = encode_reject (record { reason = reason; detail = details reason }) ∷ [];
        closes = true;
        host = h;
      }
      else acknowledge accepts factories offered h
]

-- The results of a request that is not run.
unfoldable pub refusal : Bool → (Bool → List ℕ) → List JobSpec → SubGraphReply
refusal resolved text [] = []
refusal resolved text (job ∷ jobs) =
    record {
      status = 4;
      error =
          if resolved then error_byte PipelineError.busy else error_byte PipelineError.job_failed;
      message = text resolved;
      output = record { kind = no_payload; bytes = [] };
    }
    ∷ refusal resolved text jobs

abbrev pub jobs_of : Option (ℕ × SubGraphRequest) → List JobSpec
jobs_of none = []
jobs_of (some (id, request)) = request.jobs

abbrev pub handled : (Bool → List ℕ) → List JobSpec → Admission × WorkerHost → Handled
handled text jobs (closes, h) = record { sent = []; closes = true; host = h }
handled text jobs (refused id resolved, h) = record {
  sent = encode_reply id (refusal resolved text jobs) [] ∷ [];
  closes = false;
  host = h;
}
handled text jobs (admitted id, h) = record { sent = []; closes = false; host = h }

-- onFrameBuffer for a request.
unfoldable pub on_request :
    ℕ → (ℕ → Option Payload) → (Bool → List ℕ) → List ℕ → WorkerHost → Handled
unfolding decode_request resolve admit encode_reply refusal
on_request pointer receive text frame h =
    let request = decode_request frame in
    handled text (jobs_of request) (admit pointer request (resolve receive 0 (jobs_of request)) h)

-- onFrameBuffer for a cancel.
unfoldable pub on_cancel : List ℕ → WorkerHost → Handled
unfolding decode_cancel cancel
on_cancel frame h = elim (decode_cancel frame) [
  | none ↦ record { sent = []; closes = false; host = h }
  | some id ↦ record { sent = []; closes = false; host = cancel id h }
]

-- onFrameBuffer; what a strategy does with a payload frame is left out.
unfoldable pub on_frame :
    (StrategyOffer → Option (List ℕ))
    → List (Option (List ℕ))
    → (ℕ → List ℕ)
    → ℕ
    → (ℕ → Option Payload)
    → (Bool → List ℕ)
    → List ℕ
    → WorkerHost
    → Handled
unfolding frame_type on_hello on_request on_cancel
on_frame accepts factories details pointer receive text frame h = elim (frame_type frame) [
  | none ↦ record { sent = []; closes = true; host = h }
  | some FrameType.payload ↦ record { sent = []; closes = no_strategy h.strategy; host = h }
  | some FrameType.hello ↦ on_hello accepts factories details frame h
  | some FrameType.request ↦ on_request pointer receive text frame h
  | some FrameType.cancel ↦ on_cancel frame h
  | some FrameType.hello_ack ↦ record { sent = []; closes = true; host = h }
  | some FrameType.hello_reject ↦ record { sent = []; closes = true; host = h }
  | some FrameType.reply ↦ record { sent = []; closes = true; host = h }
]
