-- ===== src/Chunked.antt =====
-- StreamStrategy of src/remote/stream_strategy.cpp: payloads cut into chunk frames, and put together again.
-- A map from streams is a function; a buffer is a function of the index, and what a new one holds is an
-- argument, `fresh`. A frame is the body that follows the frame header.
pub mod Buffers
pub mod Delivery
use sub0pipeline.Prelude.{
  ℕ, zero, suc, ◌+◌, ◌-◌, ◌*◌, ◌%◌, ◌^◌, Bool, true, false, ◌&&◌, ◌||◌, not, Option, none, some,
  List, [], ◌∷◌, ◌++◌, ltb, leb, ◌==◌, if◌then◌else◌, length, update,
}
use sub0pipeline.Wire.{little, join, take, drop}

pub record Partial : Type 0 where
  pub storage : ℕ → ℕ
  pub total : ℕ
  pub received : ℕ

pub record StreamStrategy : Type 0 where
  pub chunk_bytes : ℕ
  pub next_stream : ℕ
  pub partials : ℕ → Option Partial
  pub complete : ℕ → Option (List ℕ)

abbrev pub max_chunk : ℕ
max_chunk = 2 ^ 32 - 1 - 64

-- The constructor's std::clamp.
unfoldable pub new_strategy : ℕ → StreamStrategy
new_strategy chunk = record {
  chunk_bytes = if ltb chunk 1 then 1 else if ltb max_chunk chunk then max_chunk else chunk;
  next_stream = 1;
  partials = λ k. none;
  complete = λ k. none;
}

-- offer
unfoldable pub offer : StreamStrategy → List ℕ
unfolding little
offer s = little 4 s.chunk_bytes

-- decodeU32
unfoldable pub decode_u32 : List ℕ → Option ℕ
unfolding join
decode_u32 bytes = if length bytes == 4 then some (join bytes) else none

abbrev pub min : ℕ → ℕ → ℕ
min a b = if ltb b a then b else a

-- accept and complete: the strategy with the smaller chunk size; `none` is kJobFailed.
unfoldable pub agree : List ℕ → StreamStrategy → Option StreamStrategy
unfolding decode_u32
agree bytes s = elim (decode_u32 bytes) [
  | none ↦ none
  | some peer ↦ if peer == 0 then none else some (record s { chunk_bytes = min s.chunk_bytes peer })
]

-- A chunk frame: the header and the bytes.
unfoldable pub chunk_frame : ℕ → ℕ → ℕ → List ℕ → List ℕ
unfolding little
chunk_frame stream total offset chunk =
    1 ∷ (little 8 stream ++ (little 8 total ++ (little 8 offset ++ chunk)))

abbrev pub chunk_at : ℕ → ℕ → List ℕ → List ℕ
chunk_at limit offset bytes = take (min limit (length bytes - offset)) (drop offset bytes)

-- The rounds of the loop of send from `offset` on, the frames that were sent and whether all were;
-- `accepts` says for an offset whether the sender takes the frame.
unfoldable pub send_chunks : (ℕ → Bool) → ℕ → ℕ → ℕ → List ℕ → ℕ → List (List ℕ) × Bool
unfolding chunk_frame
send_chunks accepts zero limit stream bytes offset = ([], false)
send_chunks accepts (suc fuel) limit stream bytes offset =
    let next = offset + min limit (length bytes - offset) in
    let rest = send_chunks accepts fuel limit stream bytes next in
    let frame = chunk_frame stream (length bytes) offset (chunk_at limit offset bytes) in
    if accepts offset
    then (if ltb next (length bytes) then (frame ∷ rest.0, rest.1) else (frame ∷ [], true))
    else ([], false)

-- What send leaves: the frames, and the reference, or `none` for kUnavailable.
pub record Sending : Type 0 where
  pub frames : List (List ℕ)
  pub reference : Option (List ℕ)
  pub strategy : StreamStrategy

-- StreamStrategy::send. A round sends a byte at least, so that a round for each byte and one more are enough.
unfoldable pub send : (ℕ → Bool) → List ℕ → StreamStrategy → Sending
unfolding send_chunks little
send accepts bytes s =
    let sent = send_chunks accepts (length bytes + 1) s.chunk_bytes s.next_stream bytes 0 in
    record {
      frames = sent.0;
      reference = if sent.1 then some (little 8 s.next_stream) else none;
      strategy = record s { next_stream = (s.next_stream + 1) % 2 ^ 64 };
    }

-- receive; `none` is kJobFailed.
unfoldable pub receive : List ℕ → StreamStrategy → Option (List ℕ) × StreamStrategy
unfolding join
receive reference s =
    if length reference == 8
    then elim (s.complete (join reference)) [
      | none ↦ (none, s)
      | some payload ↦
          (some payload, record s { complete = update s.complete (join reference) none })
    ]
    else (none, s)

abbrev pub nth : List ℕ → ℕ → ℕ
nth [] i = 0
nth (x ∷ xs) zero = x
nth (x ∷ xs) (suc i) = nth xs i

-- std::memcpy of the chunk to `storage + offset`.
abbrev pub copy_to : ℕ → List ℕ → (ℕ → ℕ) → ℕ → ℕ
copy_to offset chunk storage j =
    if leb offset j && ltb j (offset + length chunk) then nth chunk (j - offset) else storage j

abbrev pub bytes_of : ℕ → (ℕ → ℕ) → List ℕ
bytes_of zero f = []
bytes_of (suc n) f = f 0 ∷ bytes_of n (λ i. f (suc i))

-- What a stream has: its chunks so far, and its payload once it is complete.
abbrev pub Received : Type 0
Received = Option Partial × Option (List ℕ)

abbrev pub partial_of : (ℕ → ℕ) → ℕ → Option Partial → Partial
partial_of fresh total none = record { storage = fresh; total = total; received = 0 }
partial_of fresh total (some p) = p

-- onPayloadFrame for a chunk that lies inside its payload; `owner` says whether the frame has an owner.
unfoldable pub take_chunk : (ℕ → ℕ) → Bool → ℕ → ℕ → List ℕ → Received → Received
take_chunk fresh owner total offset chunk (partial, complete) =
    if (offset == 0) && ((length chunk == total) && owner)
    then (partial, some chunk)
    else (let p = partial_of fresh total partial in
        if p.total == total
        then (let storage = copy_to offset chunk p.storage in
            let received = (p.received + length chunk) % 2 ^ 64 in
            if leb p.total received then (none, some (bytes_of total storage)) else (
              some (record { storage = storage; total = p.total; received = received }),
              complete,
            ))
        else (some p, complete))

-- The three numbers of a chunk frame and its bytes, if onPayloadFrame goes on with it.
pub record Chunk : Type 0 where
  pub stream : ℕ
  pub total : ℕ
  pub offset : ℕ
  pub bytes : List ℕ

unfoldable pub parse_chunk : List ℕ → Option Chunk
unfolding join
parse_chunk [] = none
parse_chunk (kind ∷ rest) =
    let total = join (take 8 (drop 8 rest)) in
    let offset = join (take 8 (drop 16 rest)) in
    let bytes = drop 24 rest in
    if ltb (length rest) 24 || not (kind == 1)
    then none
    else if ltb total offset || ltb (total - offset) (length bytes)
    then none
    else some
        (record { stream = join (take 8 rest); total = total; offset = offset; bytes = bytes })

-- onPayloadFrame
unfoldable pub on_payload_frame : (ℕ → ℕ) → Bool → List ℕ → StreamStrategy → StreamStrategy
unfolding parse_chunk take_chunk
on_payload_frame fresh owner body s = elim (parse_chunk body) [
  | none ↦ s
  | some c ↦
      let after =
        take_chunk fresh owner c.total c.offset c.bytes
          (s.partials c.stream, s.complete c.stream) in
      record s {
        partials = update s.partials c.stream after.0;
        complete = update s.complete c.stream after.1;
      }
]

-- onClosed
unfoldable pub on_closed : StreamStrategy → StreamStrategy
on_closed s = record s { partials = λ k. none; complete = λ k. none }
