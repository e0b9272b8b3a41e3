-- ===== src/Samples/Carriers.antt =====
-- A payload frame of two parts, for src/remote/payload_sender.hpp.
use sub0pipeline.Prelude.{ℕ, ◌≡◌, some, List, [], ◌∷◌, arith}
use sub0pipeline.Wire.{FrameType, body_of}
use sub0pipeline.Loopback.{join_parts}
use sub0pipeline.Carriers.{sender_parts, total_bytes}
use sub0pipeline.Carriers.Frames.{sender_parts-join_parts}

abbrev two_parts : List (List ℕ)
two_parts = (1 ∷ 2 ∷ []) ∷ (3 ∷ []) ∷ []

sender_parts-join_parts_example :
    (whole : List (List ℕ)) × (sender_parts two_parts ≡ some whole)
    × (body_of FrameType.payload (join_parts whole) ≡ some (join_parts two_parts))
unfolding total_bytes
sender_parts-join_parts_example = sender_parts-join_parts two_parts (omega arith) (omega arith)
