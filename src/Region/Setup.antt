-- ===== src/Region/Setup.antt =====
-- The handshake of SharedMemoryStrategy in src/remote/shared_memory.cpp, and its release frames. What the
-- operating system and the fallback stream answer are arguments: the size of a region that was made or
-- opened, its name, and the stream's setup.
use mathlib.Core.List.{append-nil}
use sub0pipeline.Prelude.{
  ℕ, ◌+◌, ◌^◌, ◌≤◌, ◌<◌, ◌≡◌, refl, sym, ap, ◌∙◌, true, false, ◌&&◌, ◌||◌, Option, none, some, List,
  [], ◌∷◌, ◌++◌, ltb, ◌==◌, if◌then◌else◌, length, length-append, arith,
}
use sub0pipeline.Types.{PipelineError, Expected, value, unexpected}
use sub0pipeline.Wire.{little, join, take, drop}
use sub0pipeline.Wire.Reads.{join-little, take-append, drop-append}
use sub0pipeline.Region.{State, init_free, drop_peer_hold}
use sub0pipeline.Chunked.{chunk_frame, parse_chunk}

pub record Setup : Type 0 where
  pub size : ℕ
  pub name : List ℕ
  pub stream : List ℕ

-- `std::min<std::size_t>(name.size(), UINT16_MAX)`
abbrev pub name_length : List ℕ → ℕ
name_length name = if ltb 65535 (length name) then 65535 else length name

-- encodeSetup
unfoldable pub encode_setup : ℕ → List ℕ → List ℕ → List ℕ
unfolding little
encode_setup size name stream =
    little 8 size ++ (little 2 (name_length name) ++ (take (name_length name) name ++ stream))

-- decodeSetup
unfoldable pub decode_setup : List ℕ → Option Setup
unfolding join
decode_setup bytes =
    let size = join (take 2 (drop 8 bytes)) in
    if ltb (length bytes) 10
    then none
    else if ltb (length bytes) (10 + size) || (size == 0)
    then none
    else some (record {
      size = join (take 8 bytes);
      name = take size (drop 10 bytes);
      stream = drop size (drop 10 bytes);
    })

-- offer
unfoldable pub offer : Option ℕ → List ℕ → List ℕ → State → List ℕ × State
unfolding encode_setup init_free
offer created name stream s =
    let own = record s { coordinator = true; region_bytes = created } in
    elim created [ none ↦ ([], own) | some n ↦ (encode_setup n name stream, init_free own) ]

-- accept: the answer, the size of the peer's region, and the state.
unfoldable pub accept :
    (Setup → Option ℕ)
    → (List ℕ → Expected (List ℕ))
    → Option ℕ
    → List ℕ
    → List ℕ
    → State
    → Expected (List ℕ) × Option ℕ × State
unfolding decode_setup encode_setup init_free
accept opens accepts created name offered s = elim (decode_setup offered) [
  | none ↦ (unexpected PipelineError.unavailable, none, s)
  | some setup ↦ elim (opens setup) [
    | none ↦ (unexpected PipelineError.unavailable, none, s)
    | some peer ↦ elim (accepts setup.stream) [
      | unexpected e ↦ (unexpected e, none, s)
      | value stream ↦
          let own = record s { coordinator = false; region_bytes = created } in
          elim created [
            | none ↦ (unexpected PipelineError.unavailable, some peer, own)
            | some n ↦ (value (encode_setup n name stream), some peer, init_free own)
          ]
    ]
  ]
]

-- complete: the size of the peer's region.
unfoldable pub complete : (Setup → Option ℕ) → (List ℕ → Option PipelineError) → List ℕ → Expected ℕ
unfolding decode_setup
complete opens completes accepted = elim (decode_setup accepted) [
  | none ↦ unexpected PipelineError.unavailable
  | some setup ↦ elim (opens setup) [
    | none ↦ unexpected PipelineError.unavailable
    | some peer ↦ elim (completes setup.stream) [ some e ↦ unexpected e | none ↦ value peer ]
  ]
]

-- The frame that State::sendRelease sends.
unfoldable pub release_frame : ℕ → List ℕ
unfolding little
release_frame id = 82 ∷ little 8 id

-- onPayloadFrame; `none` goes to the fallback stream.
unfoldable pub on_payload_frame : List ℕ → State → Option State
unfolding join drop_peer_hold
on_payload_frame [] s = none
on_payload_frame (kind ∷ rest) s =
    if (length rest == 8) && (kind == 82) then some (drop_peer_hold (join rest) s) else none

-- What the reader finds in the bytes of a setup.
record Parts (bytes : List ℕ) (size : ℕ) (name stream : List ℕ) : Type 0 where
  long : length bytes ≡ 10 + length name + length stream
  first : join (take 8 bytes) ≡ size
  second : join (take 2 (drop 8 bytes)) ≡ length name
  rest : drop 10 bytes ≡ name ++ stream

Parts-decode :
    (bytes : List ℕ) (size : ℕ) (name stream : List ℕ)
    → 0 < length name
    → Parts bytes size name stream
    → decode_setup bytes ≡ some (record { size = size; name = name; stream = stream })
unfolding decode_setup
Parts-decode bytes size name stream some_name parts =
    let one : take (length name) (drop 10 bytes) ≡ name =
      ap (take (length name)) parts.rest ∙ take-append name stream in
    let two : drop (length name) (drop 10 bytes) ≡ stream =
      ap (drop (length name)) parts.rest ∙ drop-append name stream in
    let short : ltb (length bytes) 10 ≡ false = ground (arith, parts.long) in
    let room : (ltb (length bytes) (10 + join (take 2 (drop 8 bytes)))
          || (join (take 2 (drop 8 bytes)) == 0))
        ≡ false =
      ground (arith, parts.long, parts.second, some_name) in
    rw (short, room, parts.second, parts.first, one, two) refl

setup-Parts :
    (size : ℕ) (name stream : List ℕ)
    → size < 2 ^ 64
    → length name ≤ 65535
    → Parts (little 8 size ++ (little 2 (length name) ++ (name ++ stream))) size name stream
unfolding little
setup-Parts size name stream hs short = record {
  long = ground (arith, length-append name stream);
  first = join-little 8 size hs;
  second = join-little 2 (length name) (omega (arith, short));
  rest = refl;
}

-- A setup of the shared memory handshake with a name of 1 to 65535 bytes and a size below 2^64
-- is read back.
decode_setup-encode_setup :
    (size : ℕ) (name stream : List ℕ)
    → size < 2 ^ 64
    → 0 < length name
    → length name ≤ 65535
    → decode_setup (encode_setup size name stream)
      ≡ some (record { size = size; name = name; stream = stream })
unfolding encode_setup
decode_setup-encode_setup size name stream hs some_name short =
    let full : name_length name ≡ length name = ground (arith, short) in
    let whole : take (name_length name) name ≡ name =
      ap (λ n. take n name) full
      ∙ ap (take (length name)) (sym (append-nil name))
      ∙ take-append name [] in
    ap
      (λ n.
        decode_setup (little 8 size ++ (little 2 n ++ (take (name_length name) name ++ stream))))
      full
    ∙ ap (λ bs. decode_setup (little 8 size ++ (little 2 (length name) ++ (bs ++ stream)))) whole
    ∙ Parts-decode (little 8 size ++ (little 2 (length name) ++ (name ++ stream))) size name stream
        some_name (setup-Parts size name stream hs short)

-- A release frame gives up one hold of its block and is no chunk of a stream, and a chunk of a stream goes
-- to the fallback stream.
pub on_payload_frame-separates :
    (id stream total offset : ℕ) (chunk : List ℕ) (s : State)
    → id < 2 ^ 64
    → (on_payload_frame (release_frame id) s ≡ some (drop_peer_hold id s))
      × (parse_chunk (release_frame id) ≡ none)
      × (on_payload_frame (chunk_frame stream total offset chunk) s ≡ none)
unfolding on_payload_frame release_frame parse_chunk chunk_frame little
on_payload_frame-separates id stream total offset chunk s h =
    let back = join-little 8 id h in (ground (arith, back), ground arith, ground arith)
