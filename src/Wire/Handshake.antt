-- ===== src/Wire/Handshake.antt =====
-- decodeHello of src/remote/wire.cpp.
use sub0pipeline.Prelude.{
  ℕ, zero, suc, ◌&&◌, Option, none, some, List, [], ◌∷◌, ltb, leb, ◌==◌, if◌then◌else◌,
}
use sub0pipeline.Wire.{
  FrameType, hello, hello_ack, same_type, StrategyOffer, Hello, protocol_magic, M, ◌>>=◌, pure,
  is_ok, remaining, is_nil, drop, read_little, read_string, read_blob, frame_type,
}
use sub0pipeline.Wire.Decode.{require, run}

-- The loop over the offers.
unfoldable pub read_offers : ℕ → M (List StrategyOffer)
unfolding read_string read_blob
read_offers zero = pure []
read_offers (suc n) = do
  name ← read_string
  setup ← read_blob
  rest ← read_offers n
  pure (record { name = name; setup = setup } ∷ rest)

-- The chosen strategy of a hello-ack; an empty name is none.
unfoldable pub read_chosen : M (List StrategyOffer)
unfolding read_string read_blob
read_chosen = do
  name ← read_string
  setup ← read_blob
  pure (if is_nil name then [] else record { name = name; setup = setup } ∷ [])

unfoldable pub read_strategies : FrameType → M (List StrategyOffer)
unfolding read_little read_offers read_chosen
read_strategies type =
    if same_type type hello then (do count ← read_little 1; read_offers count) else read_chosen

-- The fields behind the magic number.
unfoldable pub read_hello : FrameType → M (Option Hello)
unfolding read_little read_strategies
read_hello type = do
  magic ← read_little 4
  require (magic == protocol_magic) (do
    major ← read_little 2
    minor ← read_little 2
    fingerprint ← read_little 8
    max_in_flight ← read_little 4
    max_inline_bytes ← read_little 4
    ok ← is_ok
    left ← remaining
    strategies ← (if leb 1 minor && ltb 0 left then read_strategies type else pure [])
    still_ok ← is_ok
    require (ok && still_ok) (
        pure (
          some (record {
            major = major;
            minor = minor;
            fingerprint = fingerprint;
            max_in_flight = max_in_flight;
            max_inline_bytes = max_inline_bytes;
            strategies = strategies;
          }))))

-- decodeHello
unfoldable pub decode_hello : List ℕ → Option Hello
unfolding frame_type read_hello
decode_hello frame = elim (frame_type frame) [
  | none ↦ none
  | some type ↦
      if same_type type hello
      then run (some (drop 5 frame)) (read_hello hello)
      else if same_type type hello_ack
      then run (some (drop 5 frame)) (read_hello hello_ack)
      else none
]
