-- ===== src/Wire.antt =====
-- src/remote/wire.cpp and its header: the Writer and Reader of the remote protocol, the payloads and
-- requests of remote/payload.hpp and remote/subgraph.hpp, and the frame header. A byte is a number; a
-- value of an `enum class : uint8_t` that is read from a frame unchecked is its byte.
pub mod Encode
pub mod Decode
pub mod Reads
pub mod RoundTrip
pub mod Entries
pub mod Accepted
pub mod Requests
pub mod Replies
pub mod Handshake
use sub0pipeline.Prelude.{
  ℕ, zero, suc, ◌+◌, ◌-◌, ◌*◌, ◌/◌, ◌%◌, ◌^◌, Bool, true, false, ◌&&◌, ◌||◌, not, Option, none,
  some, List, [], ◌∷◌, ◌++◌, ltb, leb, ◌==◌, if◌then◌else◌, length,
}

-- PayloadKind
pub data PayloadKind : Type 0 where
  no_payload inlined handle reference : PayloadKind

pub record Payload : Type 0 where
  pub kind : PayloadKind
  pub bytes : List ℕ

pub record JobKindId : Type 0 where
  pub name : List ℕ
  pub version : ℕ

-- SubGraphRequest::JobSpec
pub record JobSpec : Type 0 where
  pub kind : JobKindId
  pub input : Payload
  pub exported : Bool

-- SubGraphRequest::Edge
pub record WireEdge : Type 0 where
  pub from : ℕ
  pub to : ℕ

pub record SubGraphRequest : Type 0 where
  pub jobs : List JobSpec
  pub edges : List WireEdge

-- SubGraphRequest::add
unfoldable pub add : JobSpec → SubGraphRequest → SubGraphRequest
add job req = record req { jobs = req.jobs ++ job ∷ [] }

-- SubGraphRequest::edge's test
abbrev pub edge_fits : ℕ → WireEdge → Bool
edge_fits jobs e = not (leb jobs e.from || leb jobs e.to || (e.from == e.to))

-- SubGraphRequest::edge
unfoldable pub edge : WireEdge → SubGraphRequest → SubGraphRequest × Bool
edge e req =
    if edge_fits (length req.jobs) e
    then (record req { edges = req.edges ++ e ∷ [] }, true)
    else (req, false)

pub record JobResult : Type 0 where
  pub status : ℕ  -- the byte of a JobStatus
  pub error : ℕ  -- the byte of a PipelineError
  pub message : List ℕ
  pub output : Payload

-- SubGraphReply::results
abbrev pub SubGraphReply : Type 0
SubGraphReply = List JobResult

-- kFailed, kCancelled or kTimedOut
abbrev pub is_failure : ℕ → Bool
is_failure status = (status == 4) || (status == 7) || (status == 6)

-- The loop of firstFailure, at index `i`.
unfoldable pub first_failure_from : ℕ → SubGraphReply → Option ℕ
first_failure_from i [] = none
first_failure_from i (r ∷ rs) =
    if is_failure r.status then some i else first_failure_from (i + 1) rs

-- SubGraphReply::firstFailure
unfoldable pub first_failure : SubGraphReply → Option ℕ
unfolding first_failure_from
first_failure reply = first_failure_from 0 reply

abbrev pub max_handle_bytes : ℕ
max_handle_bytes = 64

abbrev pub max_jobs : ℕ
max_jobs = 65536

abbrev pub protocol_magic : ℕ
protocol_magic = 0x4C503053

-- FrameType
pub data FrameType : Type 0 where
  hello hello_ack hello_reject request reply cancel payload : FrameType

abbrev pub type_byte : FrameType → ℕ
type_byte hello = 1
type_byte hello_ack = 2
type_byte hello_reject = 3
type_byte request = 4
type_byte reply = 5
type_byte cancel = 6
type_byte payload = 7

-- static_cast<FrameType> of a byte that the caller has checked.
abbrev pub type_of_byte : ℕ → Option FrameType
type_of_byte b =
    if b == 1
    then some hello
    else if b == 2
    then some hello_ack
    else if b == 3
    then some hello_reject
    else if b == 4
    then some request
    else if b == 5
    then some reply
    else if b == 6
    then some cancel
    else if b == 7
    then some payload
    else none

-- StrategyOffer
pub record StrategyOffer : Type 0 where
  pub name : List ℕ
  pub setup : List ℕ

pub record Hello : Type 0 where
  pub major : ℕ
  pub minor : ℕ
  pub fingerprint : ℕ
  pub max_in_flight : ℕ
  pub max_inline_bytes : ℕ
  pub strategies : List StrategyOffer

pub record HelloReject : Type 0 where
  pub reason : ℕ  -- the byte of a RejectReason
  pub detail : List ℕ

-- Writer::little: the `n` low bytes of `v`, the lowest first. Each round shifts by eight bits.
unfoldable pub little : ℕ → ℕ → List ℕ
little zero v = []
little (suc n) v = v % 256 ∷ little n (v / 256)

abbrev pub take {ℓ} : {A : Type ℓ} → ℕ → List A → List A
take zero xs = []
take (suc n) [] = []
take (suc n) (x ∷ xs) = x ∷ take n xs

abbrev pub drop {ℓ} : {A : Type ℓ} → ℕ → List A → List A
drop zero xs = xs
drop (suc n) [] = []
drop (suc n) (x ∷ xs) = drop n xs

-- The value that Reader::little joins from bytes, the lowest first.
unfoldable pub join : List ℕ → ℕ
join [] = 0
join (b ∷ bs) = b + 256 * join bs

-- Reader: the bytes from pos_ on, and the latch ok_.
pub record Reader : Type 0 where
  pub rest : List ℕ
  pub ok : Bool

-- A read gives a value and the reader after it.
abbrev pub M {ℓ} : Type ℓ → Type ℓ
M A = Reader → A × Reader

infixl 5 ◌>>=◌ ◌>>◌
unfoldable pub ◌>>=◌ {ℓ κ} : {A : Type ℓ} {B : Type κ} → M A → (A → M B) → M B
◌>>=◌ m f r = f (m r).0 (m r).1

unfoldable pub ◌>>◌ {ℓ κ} : {A : Type ℓ} {B : Type κ} → M A → M B → M B
m >> k = m >>= λ _. k

abbrev pub pure {ℓ} : {A : Type ℓ} → A → M A
pure a r = (a, r)

-- Reader::take, with the bytes that the caller then reads: none if too few are left.
unfoldable pub take_bytes : ℕ → M (List ℕ)
take_bytes n r =
    if r.ok && leb n (length r.rest)
    then (take n r.rest, record r { rest = drop n r.rest })
    else ([], record r { ok = false })

-- Reader::little
unfoldable pub read_little : ℕ → M ℕ
unfolding take_bytes join
read_little n = do bytes ← take_bytes n; pure (join bytes)

-- Reader::string
unfoldable pub read_string : M (List ℕ)
unfolding read_little
read_string = do n ← read_little 2; take_bytes n

-- Reader::blob
unfoldable pub read_blob : M (List ℕ)
unfolding read_little
read_blob = do n ← read_little 4; take_bytes n

-- Reader::ok
abbrev pub is_ok : M Bool
is_ok r = (r.ok, r)

-- Reader::remaining
abbrev pub remaining : M ℕ
remaining r = (if r.ok then length r.rest else 0, r)

abbrev pub kind_byte : PayloadKind → ℕ
kind_byte no_payload = 0
kind_byte inlined = 1
kind_byte handle = 2
kind_byte reference = 3

abbrev pub is_nil {ℓ} : {A : Type ℓ} → List A → Bool
is_nil [] = true
is_nil (x ∷ xs) = false

-- The switch of Reader::payload.
unfoldable pub payload_of : ℕ → List ℕ → Option Payload
payload_of k bytes =
    if k == 0
    then (if is_nil bytes then some (record { kind = no_payload; bytes = [] }) else none)
    else if k == 1
    then some (record { kind = inlined; bytes = bytes })
    else if k == 2
    then (if ltb max_handle_bytes (length bytes)
        then none
        else some (record { kind = handle; bytes = bytes }))
    else if k == 3
    then some (record { kind = reference; bytes = bytes })
    else none

-- Reader::payload
unfoldable pub read_payload : M (Option Payload)
unfolding read_little read_blob payload_of
read_payload = do
  k ← read_little 1
  bytes ← read_blob
  ok ← is_ok
  pure (if ok then payload_of k bytes else none)

-- Writer::finish: the header with the body's length, and the body.
unfoldable pub finish : FrameType → List ℕ → List ℕ
unfolding little
finish type body = little 4 (length body) ++ type_byte type ∷ body

-- frameType
unfoldable pub frame_type : List ℕ → Option FrameType
unfolding join
frame_type (a ∷ b ∷ c ∷ d ∷ type ∷ body) =
    if join (a ∷ b ∷ c ∷ d ∷ []) == length body then type_of_byte type else none
frame_type _ = none

abbrev pub same_type : FrameType → FrameType → Bool
same_type a b = type_byte a == type_byte b

-- bodyOf
unfoldable pub body_of : FrameType → List ℕ → Option (List ℕ)
unfolding frame_type
body_of type frame = elim (frame_type frame) [
  | none ↦ none
  | some t ↦ if same_type t type then some (drop 5 frame) else none
]
