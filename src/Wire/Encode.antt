-- ===== src/Wire/Encode.antt =====
-- The encoders of src/remote/wire.cpp.
use sub0pipeline.Prelude.{
  ℕ, zero, suc, Bool, ◌&&◌, not, Option, none, some, List, [], ◌∷◌, ◌++◌, ltb, leb, ◌==◌,
  if◌then◌else◌, length,
}
use sub0pipeline.Wire.{
  handle, Payload, JobSpec, WireEdge, SubGraphRequest, JobResult, SubGraphReply, max_handle_bytes,
  max_jobs, protocol_magic, FrameType, hello, hello_reject, request, reply, cancel, payload,
  StrategyOffer, Hello, HelloReject, little, take, kind_byte, is_nil, finish, type_byte,
}

-- Writer::string
unfoldable pub put_string : List ℕ → List ℕ
unfolding little
put_string s = little 2 (length s) ++ s

-- Writer::blob
unfoldable pub put_blob : List ℕ → List ℕ
unfolding little
put_blob b = little 4 (length b) ++ b

-- Writer::payload
unfoldable pub put_payload : Payload → List ℕ
unfolding little put_blob
put_payload p = little 1 (kind_byte p.kind) ++ put_blob p.bytes

-- fits
unfoldable pub fits : Payload → Bool
fits p = elim (p.kind) [
  | handle ↦ leb (length p.bytes) max_handle_bytes
  | _ ↦ leb (length p.bytes) 4294967295
]

-- The name of an offer, cut to 65535 bytes, and its setup bytes.
unfoldable pub put_offer : StrategyOffer → List ℕ
unfolding put_string put_blob
put_offer o = put_string (take 65535 o.name) ++ put_blob o.setup

-- `for (i = 0; i < count; ++i)` over the strategies.
unfoldable pub put_offers : ℕ → List StrategyOffer → List ℕ
unfolding put_offer
put_offers zero os = []
put_offers (suc n) [] = []
put_offers (suc n) (o ∷ os) = put_offer o ++ put_offers n os

abbrev pub min255 : ℕ → ℕ
min255 n = if ltb 255 n then 255 else n

-- The strategies as a hello or a hello-ack carries them.
unfoldable pub put_strategies : FrameType → List StrategyOffer → List ℕ
unfolding little put_offers put_offer put_string put_blob
put_strategies hello os = little 1 (min255 (length os)) ++ put_offers (min255 (length os)) os
put_strategies _ [] = put_string [] ++ put_blob []
put_strategies _ (o ∷ os) = put_offer o

-- encodeHello
unfoldable pub encode_hello : FrameType → Hello → List ℕ
unfolding finish little put_strategies
encode_hello type h = finish type (
    little 4 protocol_magic
    ++ (little 2 h.major
        ++ (little 2 h.minor
            ++ (little 8 h.fingerprint
                ++ (little 4 h.max_in_flight
                    ++ (little 4 h.max_inline_bytes ++ put_strategies type h.strategies))))))

-- encodeReject
unfoldable pub encode_reject : HelloReject → List ℕ
unfolding finish little put_string
encode_reject r = finish hello_reject (little 1 r.reason ++ put_string (take 65535 r.detail))

-- `!overrides.empty() && overrides[i] ? *overrides[i] : input`; the list is empty or one entry per job.
unfoldable pub overridden : List (Option Payload) → Payload → Payload
overridden (some p ∷ os) input = p
overridden (none ∷ os) input = input
overridden [] input = input

abbrev pub tail {ℓ} : {A : Type ℓ} → List A → List A
tail [] = []
tail (x ∷ xs) = xs

-- One round of the loop over the jobs; `none` is `return std::nullopt`.
unfoldable pub put_job : JobSpec → Payload → Option (List ℕ)
unfolding fits put_string little put_payload
put_job job input =
    if not (leb (length job.kind.name) 65535)
    then none
    else if not (fits input)
    then none
    else some (
        put_string job.kind.name
        ++ (little 4 job.kind.version
            ++ (little 1 (if job.exported then 1 else 0) ++ put_payload input)))

abbrev pub append_to : Option (List ℕ) → Option (List ℕ) → Option (List ℕ)
append_to (some xs) (some ys) = some (xs ++ ys)
append_to (some xs) none = none
append_to none ys = none

unfoldable pub put_jobs : List JobSpec → List (Option Payload) → Option (List ℕ)
unfolding put_job overridden
put_jobs [] os = some []
put_jobs (job ∷ jobs) os =
    append_to (put_job job (overridden os job.input)) (put_jobs jobs (tail os))

unfoldable pub put_edges : List WireEdge → List ℕ
unfolding little
put_edges [] = []
put_edges (e ∷ es) = little 4 e.from ++ (little 4 e.to ++ put_edges es)

abbrev pub frame_of : FrameType → Option (List ℕ) → Option (List ℕ)
frame_of type none = none
frame_of type (some body) = some (finish type body)

-- encodeRequest
unfoldable pub encode_request : ℕ → SubGraphRequest → List (Option Payload) → Option (List ℕ)
unfolding finish little put_jobs put_edges
encode_request id req overrides =
    if ltb max_jobs (length req.jobs)
    then none
    else if not (is_nil overrides) && not (length overrides == length req.jobs)
    then none
    else frame_of request (
        append_to (some (little 8 id ++ little 4 (length req.jobs))) (
          append_to (put_jobs req.jobs overrides)
            (some (little 4 (length req.edges) ++ put_edges req.edges))))

unfoldable pub put_result : JobResult → Payload → List ℕ
unfolding little put_string put_payload
put_result r output =
    little 1 r.status
    ++ (little 1 r.error ++ (put_string (take 65535 r.message) ++ put_payload output))

unfoldable pub put_results : SubGraphReply → List (Option Payload) → List ℕ
unfolding put_result overridden
put_results [] os = []
put_results (r ∷ rs) os = put_result r (overridden os r.output) ++ put_results rs (tail os)

-- encodeReply
unfoldable pub encode_reply : ℕ → SubGraphReply → List (Option Payload) → List ℕ
unfolding finish little put_results
encode_reply id results overrides =
    finish reply (little 8 id ++ (little 4 (length results) ++ put_results results overrides))

-- encodeCancel
unfoldable pub encode_cancel : ℕ → List ℕ
unfolding finish little
encode_cancel id = finish cancel (little 8 id)

-- payloadFrameHeader
unfoldable pub payload_frame_header : ℕ → List ℕ
unfolding little
payload_frame_header body_bytes = little 4 body_bytes ++ type_byte payload ∷ []
