-- ===== src/Channel/Handshake.antt =====
-- RemoteChannel::connect, selectStrategy and the control frames of onFrameBuffer. A factory that makes no
-- strategy is `none`; whether a strategy takes the worker's setup is an argument, `completes`.
use sub0pipeline.Prelude.{
  ℕ, Bool, true, false, not, Option, none, some, List, [], ◌∷◌, ◌++◌, ltb, ◌==◌, if◌then◌else◌,
  same_bytes,
}
use sub0pipeline.Wire.{
  hello_ack, hello_reject, same_type, StrategyOffer, Hello, HelloReject, frame_type,
}
use sub0pipeline.Wire.Decode.{decode_reject}
use sub0pipeline.Wire.Handshake.{decode_hello}
use sub0pipeline.Channel.{
  idle, handshaking, connected, closed, is_handshaking, ConnectError, version_mismatch,
  fingerprint_mismatch, transport_closed, timeout, protocol, Channel,
}

abbrev pub protocol_major : ℕ
protocol_major = 1

abbrev pub protocol_minor : ℕ
protocol_minor = 1

unfoldable pub has_name : List ℕ → List StrategyOffer → Bool
has_name name [] = false
has_name name (o ∷ os) = if same_bytes o.name name then true else has_name name os

-- The loop of connect over the factories.
unfoldable pub offers : List (Option StrategyOffer) → List StrategyOffer → List StrategyOffer
unfolding has_name
offers [] made = made
offers (none ∷ factories) made = offers factories made
offers (some o ∷ factories) made =
    offers factories (if has_name o.name made then made else made ++ o ∷ [])

-- connect up to its wait; `none` is kProtocol.
unfoldable pub start_connect : List (Option StrategyOffer) → Channel → Option (Hello × Channel)
unfolding offers
start_connect factories c = elim (c.state) [
  | idle ↦
      let made = offers factories [] in
      some (
        record {
          major = protocol_major;
          minor = protocol_minor;
          fingerprint = c.options.expected_fingerprint;
          max_in_flight = c.options.max_in_flight;
          max_inline_bytes = c.options.max_inline_bytes;
          strategies = made;
        },
        record c { state = handshaking; candidates = c.candidates ++ made },
      )
  | handshaking ↦ none
  | connected ↦ none
  | closed ↦ none
]

abbrev pub value_or : Option ConnectError → ConnectError → ConnectError
value_or (some e) other = e
value_or none other = other

-- connect after its wait, which ends when the state changes or after the timeout: the error if there is one.
unfoldable pub finish_connect : Channel → Option ConnectError × Channel
finish_connect c = elim (c.state) [
  | connected ↦ (none, c)
  | handshaking ↦ (some timeout, record c { state = closed })
  | idle ↦ (some (value_or c.rejected transport_closed), c)
  | closed ↦ (some (value_or c.rejected transport_closed), c)
]

-- The loop of selectStrategy: the name of the strategy it takes.
unfoldable pub choose :
    (StrategyOffer → Bool) → StrategyOffer → List StrategyOffer → Option (List ℕ)
choose completes chosen [] = none
choose completes chosen (o ∷ os) =
    if not (same_bytes o.name chosen.name)
    then choose completes chosen os
    else if completes chosen
    then some o.name
    else none

-- selectStrategy
unfoldable pub select_strategy : (StrategyOffer → Bool) → Hello → Channel → Bool × Channel
unfolding choose
select_strategy completes ack c = elim (ack.strategies) [
  | [] ↦ (true, record c { candidates = [] })
  | chosen ∷ _ ↦ elim (choose completes chosen c.candidates) [
    | none ↦ (false, record c { candidates = [] })
    | some name ↦ (true, record c { candidates = []; strategy = some name })
  ]
]

abbrev pub min : ℕ → ℕ → ℕ
min a b = if ltb b a then b else a

-- Ends the connection.
abbrev pub give_up : Channel → Channel
give_up c = if is_handshaking c.state then record c { state = closed } else c

-- A hello-ack while the handshake is under way.
unfoldable pub on_hello_ack : (StrategyOffer → Bool) → Option Hello → Channel → Channel
unfolding select_strategy
on_hello_ack completes none c = give_up c
on_hello_ack completes (some h) c =
    let known = record c { peer = some h } in
    let selected = select_strategy completes h known in
    if not (h.major == protocol_major)
    then give_up (record known { rejected = some version_mismatch })
    else if not (h.fingerprint == c.options.expected_fingerprint)
    then give_up (record known { rejected = some fingerprint_mismatch })
    else if selected.0
    then record selected.1 {
      in_flight_limit = min c.options.max_in_flight h.max_in_flight;
      inline_limit = min c.options.max_inline_bytes h.max_inline_bytes;
      state = connected;
    }
    else give_up (record selected.1 { rejected = some protocol })

-- The reason of a hello-reject: RejectReason::kFingerprint is 2.
abbrev pub reject_error : Option HelloReject → ConnectError
reject_error none = protocol
reject_error (some r) = if r.reason == 2 then fingerprint_mismatch else version_mismatch

-- onFrameBuffer for a frame that is no reply and no payload.
unfoldable pub on_control_frame : (StrategyOffer → Bool) → List ℕ → Channel → Channel
unfolding frame_type decode_hello decode_reject on_hello_ack
on_control_frame completes frame c =
    if not (is_handshaking c.state) then c else elim (frame_type frame) [
      | none ↦ give_up (record c { rejected = some protocol })
      | some type ↦
          if same_type type hello_ack
          then on_hello_ack completes (decode_hello frame) c
          else if same_type type hello_reject
          then give_up (record c { rejected = some (reject_error (decode_reject frame)) })
          else give_up (record c { rejected = some protocol })
    ]
