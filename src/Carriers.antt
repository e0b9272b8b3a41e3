-- ===== src/Carriers.antt =====
-- StoreStrategy of src/remote/store_strategy.cpp and TransportPayloadSender of
-- src/remote/payload_sender.hpp. What the store answers is an argument.
pub mod Frames
use sub0pipeline.Prelude.{
  ℕ, ◌+◌, ◌-◌, ◌^◌, Bool, true, false, Option, none, some, List, [], ◌∷◌, ltb, if◌then◌else◌,
  length,
}
use sub0pipeline.Types.{PipelineError, Expected, value, unexpected}
use sub0pipeline.Wire.{inlined, Payload, max_handle_bytes}
use sub0pipeline.Wire.Encode.{payload_frame_header}

-- StoreStrategy::send; `put` is the store's.
unfoldable pub store_send : (List ℕ → Expected (List ℕ)) → List ℕ → Expected (List ℕ)
store_send put bytes = elim (put bytes) [
  | unexpected e ↦ unexpected e
  | value key ↦
      if ltb max_handle_bytes (length key) then unexpected PipelineError.job_failed else value key
]

-- StoreStrategy::receive; `get` is the store's.
unfoldable pub store_receive : (List ℕ → Expected (List ℕ)) → List ℕ → Expected Payload
store_receive get reference = elim (get reference) [
  | unexpected e ↦ unexpected e
  | value bytes ↦ value (record { kind = inlined; bytes = bytes })
]

-- The loop over the sizes of the parts.
unfoldable pub total_bytes : List (List ℕ) → ℕ
total_bytes [] = 0
total_bytes (part ∷ parts) = length part + total_bytes parts

-- sendPayloadFrame: what goes to the transport's sendParts; `none` is TransportError::kProtocol.
unfoldable pub sender_parts : List (List ℕ) → Option (List (List ℕ))
unfolding total_bytes payload_frame_header
sender_parts parts =
    if ltb 8 (length parts + 1)
    then none
    else if ltb (2 ^ 32 - 1) (total_bytes parts)
    then none
    else some (payload_frame_header (total_bytes parts) ∷ parts)
