-- ===== src/Wire/Decode.antt =====
-- The decoders of src/remote/wire.cpp. A `do` block reads as the source does; where the source
-- returns std::nullopt the rest of the block is not run.
use sub0pipeline.Prelude.{
  ℕ, zero, suc, ◌/◌, Bool, true, false, ◌&&◌, not, Option, none, some, List, [], ◌∷◌, leb, ◌==◌,
  if◌then◌else◌, length,
}
use sub0pipeline.Wire.{
  JobSpec, WireEdge, SubGraphRequest, JobResult, SubGraphReply, max_jobs, hello_reject, request,
  reply, cancel, HelloReject, Reader, M, ◌>>=◌, pure, is_ok, remaining, read_little, read_string,
  read_payload, body_of, edge_fits,
}

-- Goes on with a value, or returns std::nullopt.
abbrev pub or_return {ℓ κ} :
    {A : Type ℓ} {B : Type κ} → Option A → (A → M (Option B)) → M (Option B)
or_return none f = pure none
or_return (some a) f = f a

-- `if (!test) return std::nullopt;`
abbrev pub require {ℓ} : {B : Type ℓ} → Bool → M (Option B) → M (Option B)
require true m = m
require false m = pure none

abbrev pub cons_to {ℓ} : {A : Type ℓ} → A → Option (List A) → Option (List A)
cons_to x none = none
cons_to x (some xs) = some (x ∷ xs)

abbrev pub start : List ℕ → Reader
start body = record { rest = body; ok = true }

-- Runs a decoder over a body.
abbrev pub run {ℓ} : {A : Type ℓ} → Option (List ℕ) → M (Option A) → Option A
run none m = none
run (some body) m = (m (start body)).0

-- One round of the loop over the jobs of decodeRequest.
unfoldable pub read_job : M (Option JobSpec)
unfolding read_little read_string read_payload
read_job = do
  name ← read_string
  version ← read_little 4
  exported ← read_little 1
  input ← read_payload
  ok ← is_ok
  require ok (
      or_return input λ p. pure (
        some (record {
          kind = record { name = name; version = version };
          input = p;
          exported = not (exported == 0);
        })))

unfoldable pub read_jobs : ℕ → M (Option (List JobSpec))
unfolding read_job
read_jobs zero = pure (some [])
read_jobs (suc n) =
    read_job >>= λ job. or_return job (λ j. read_jobs n >>= λ js. pure (cons_to j js))

-- One round of the loop over the edges: the test of SubGraphRequest::edge included.
unfoldable pub read_edge : ℕ → M (Option WireEdge)
unfolding read_little
read_edge jobs = do
  from ← read_little 4
  to ← read_little 4
  ok ← is_ok
  require (ok && edge_fits jobs (record { from = from; to = to }))
      (pure (some (record { from = from; to = to })))

unfoldable pub read_edges : ℕ → ℕ → M (Option (List WireEdge))
unfolding read_edge
read_edges jobs zero = pure (some [])
read_edges jobs (suc n) =
    read_edge jobs >>= λ edge. or_return edge (λ e. read_edges jobs n >>= λ es. pure (cons_to e es))

-- decodeRequest after the jobs.
unfoldable pub read_rest : ℕ → List JobSpec → M (Option (ℕ × SubGraphRequest))
unfolding read_little read_edges
read_rest id jobs = do
  count ← read_little 4
  ok ← is_ok
  left ← remaining
  require (ok && leb count (left / 8)) (
      read_edges (length jobs) count >>= λ edges.
      or_return edges λ es. pure (some (id, record { jobs = jobs; edges = es })))

unfoldable pub read_request : M (Option (ℕ × SubGraphRequest))
unfolding read_little read_jobs read_rest
read_request = do
  id ← read_little 8
  count ← read_little 4
  ok ← is_ok
  require (ok && leb count max_jobs) (read_jobs count >>= λ jobs. or_return jobs (read_rest id))

-- decodeRequest
unfoldable pub decode_request : List ℕ → Option (ℕ × SubGraphRequest)
unfolding body_of read_request
decode_request frame = run (body_of request frame) read_request

unfoldable pub read_result : M (Option JobResult)
unfolding read_little read_string read_payload
read_result = do
  status ← read_little 1
  error ← read_little 1
  message ← read_string
  output ← read_payload
  ok ← is_ok
  require ok (
      or_return output
        λ p. pure (some (record { status = status; error = error; message = message; output = p })))

unfoldable pub read_results : ℕ → M (Option SubGraphReply)
unfolding read_result
read_results zero = pure (some [])
read_results (suc n) =
    read_result >>= λ res. or_return res (λ x. read_results n >>= λ xs. pure (cons_to x xs))

abbrev pub with_id {ℓ} : {A : Type ℓ} → ℕ → Option A → Option (ℕ × A)
with_id id none = none
with_id id (some a) = some (id, a)

unfoldable pub read_reply : M (Option (ℕ × SubGraphReply))
unfolding read_little read_results
read_reply = do
  id ← read_little 8
  count ← read_little 4
  ok ← is_ok
  require (ok && leb count max_jobs) (read_results count >>= λ results. pure (with_id id results))

-- decodeReply
unfoldable pub decode_reply : List ℕ → Option (ℕ × SubGraphReply)
unfolding body_of read_reply
decode_reply frame = run (body_of reply frame) read_reply

unfoldable pub read_cancel : M (Option ℕ)
unfolding read_little
read_cancel = do id ← read_little 8; ok ← is_ok; pure (if ok then some id else none)

-- decodeCancel
unfoldable pub decode_cancel : List ℕ → Option ℕ
unfolding body_of read_cancel
decode_cancel frame = run (body_of cancel frame) read_cancel

unfoldable pub read_reject : M (Option HelloReject)
unfolding read_little read_string
read_reject = do
  reason ← read_little 1
  detail ← read_string
  ok ← is_ok
  require ok (pure (some (record { reason = reason; detail = detail })))

-- decodeReject
unfoldable pub decode_reject : List ℕ → Option HelloReject
unfolding body_of read_reject
decode_reject frame = run (body_of hello_reject frame) read_reject
