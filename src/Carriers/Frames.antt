-- ===== src/Carriers/Frames.antt =====
-- The frames that carry payloads beside the control frames.
use sub0pipeline.Prelude.{
  ℕ, ◌^◌, ◌≤◌, ◌<◌, ◌≡◌, refl, sym, ap, ◌∙◌, inl, inr, some, List, [], ◌∷◌, ◌++◌, length,
  length-append, arith,
}
use sub0pipeline.Types.{Expected, value, Expected-cases}
use sub0pipeline.Wire.{FrameType, inlined, max_handle_bytes, finish, body_of, little}
use sub0pipeline.Wire.Reads.{body_of-finish}
use sub0pipeline.Wire.Encode.{payload_frame_header}
use sub0pipeline.Loopback.{join_parts}
use sub0pipeline.Carriers.{store_send, store_receive, total_bytes, sender_parts}

length-join_parts : (parts : List (List ℕ)) → length (join_parts parts) ≡ total_bytes parts
unfolding join_parts total_bytes
length-join_parts [] = refl
length-join_parts (p ∷ ps) = ground (arith, length-append p (join_parts ps), length-join_parts ps)

-- At most seven parts of fewer than 2^32 bytes together are taken by the payload sender, and
-- arrive as one payload frame whose body is the parts one after the other.
pub sender_parts-join_parts :
    (parts : List (List ℕ))
    → length parts ≤ 7
    → total_bytes parts < 2 ^ 32
    → (whole : List (List ℕ)) × (sender_parts parts ≡ some whole)
      × (body_of FrameType.payload (join_parts whole) ≡ some (join_parts parts))
unfolding sender_parts join_parts payload_frame_header little finish
sender_parts-join_parts parts few small =
    let size = length-join_parts parts in
    (
      payload_frame_header (total_bytes parts) ∷ parts,
      ground (arith, few, small),
      ap (λ n. body_of FrameType.payload ((little 4 n ++ 7 ∷ []) ++ join_parts parts)) (sym size)
          ∙ body_of-finish FrameType.payload (join_parts parts) (omega (arith, size, small)),
    )

-- If the store gives back under a key the bytes that it stored under it, a payload that is sent is
-- received whole.
store_receive-store_send :
    (put get : List ℕ → Expected (List ℕ)) (bytes reference : List ℕ)
    → ((bytes key : List ℕ) → put bytes ≡ value key → get key ≡ value bytes)
    → store_send put bytes ≡ value reference
    → (length reference ≤ max_handle_bytes)
      × (store_receive get reference ≡ value (record { kind = inlined; bytes = bytes }))
unfolding store_send store_receive
store_receive-store_send put get bytes reference keeps sent = elim (Expected-cases (put bytes)) [
  | inl (e, failed) ↦ absurd (ground (arith, sent, failed))
  | inr (key, stored) ↦
      let same : key ≡ reference = ground (arith, sent, stored) in
      (ground (arith, sent, stored), ground (arith, keeps bytes key stored, same))
]
