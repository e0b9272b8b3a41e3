-- ===== src/Wire/Requests.antt =====
-- decodeRequest reads back what encodeRequest wrote.
use mathlib.Core.Path.{subst}
use mathlib.Core.List.{append_assoc}
use sub0pipeline.Prelude.{
  ℕ, suc, ◌^◌, ◌≤◌, ◌<◌, ◌≡◌, refl, sym, ap, ◌∙◌, true, Option, some, List, [], ◌∷◌, ◌++◌, arith,
  leb, length, length-append, Option-cases, inl, inr,
}
use sub0pipeline.Wire.{
  Payload, JobSpec, SubGraphRequest, max_jobs, FrameType, request, ◌>>=◌, little, read_little,
  is_ok, finish, type_byte,
}
use sub0pipeline.Wire.Encode.{encode_request, put_jobs, put_edges, tail}
use sub0pipeline.Wire.Decode.{
  decode_request, read_request, read_jobs, read_rest, or_return, require,
}
use sub0pipeline.Wire.Reads.{Reads, Reads-bind, Reads-next, length-little, read_little-Reads}
use sub0pipeline.Wire.RoundTrip.{run-finish}
use sub0pipeline.Wire.Entries.{sent, JobsOk, EdgesOk, read_jobs-Reads, read_rest-Reads}

length-finish :
    (type : FrameType) (body frame : List ℕ)
    → frame ≡ finish type body
    → length frame < 2 ^ 32
    → length body < 2 ^ 32
unfolding finish
length-finish type body frame e h = ground (
  arith,
  e,
  h,
  length-append (little 4 (length body)) (type_byte type ∷ body),
  length-little 4 (length body),
)

abbrev request_bytes : ℕ → SubGraphRequest → List ℕ → List ℕ
request_bytes id req bytes =
    little 8 id
    ++ (little 4 (length req.jobs)
        ++ (bytes ++ (little 4 (length req.edges) ++ put_edges req.edges)))

encode_request-some :
    (id : ℕ) (req : SubGraphRequest) (os : List (Option Payload)) (frame : List ℕ)
    → encode_request id req os ≡ some frame
    → (length req.jobs ≤ max_jobs)
      × (bytes : List ℕ) × (put_jobs req.jobs os ≡ some bytes)
      × (frame ≡ finish request (request_bytes id req bytes))
unfolding encode_request
encode_request-some id req os frame h = elim (Option-cases (put_jobs req.jobs os)) [
  | inl e ↦ ground (arith, h, e)
  | inr (bytes, e) ↦ (
    ground (arith, h),
    bytes,
    e,
    ground (
      arith,
      h,
      e,
      append_assoc (little 8 id) (little 4 (length req.jobs))
          (bytes ++ (little 4 (length req.edges) ++ put_edges req.edges)),
    ),
  )
]

length-sent :
    (jobs : List JobSpec) (os : List (Option Payload)) → length (sent jobs os) ≡ length jobs
unfolding sent
length-sent [] os = refl
length-sent (job ∷ jobs) os = ap suc (length-sent jobs (tail os))

read_request-Reads :
    (id : ℕ) (req : SubGraphRequest) (os : List (Option Payload)) (bytes : List ℕ)
    → put_jobs req.jobs os ≡ some bytes
    → length req.jobs ≤ max_jobs
    → id < 2 ^ 64
    → length req.edges < 2 ^ 32
    → JobsOk (sent req.jobs os)
    → EdgesOk (length req.jobs) req.edges
    → Reads
        (request_bytes id req bytes)
        read_request
        (some (id, record req { jobs = sent req.jobs os }))
unfolding read_request
read_request-Reads id req os bytes h few wide many jobs_ok edges_ok =
    Reads-bind (little 8 id) _ (read_little 8) _ id _ (read_little-Reads 8 id (omega arith)) (
      Reads-bind (little 4 (length req.jobs)) _ (read_little 4) _ (length req.jobs) _
        (read_little-Reads 4 (length req.jobs) (omega arith))
        (Reads-next (bytes ++ (little 4 (length req.edges) ++ put_edges req.edges)) is_ok _ true _
          (λ t. refl)
          (λ t.
            ap
              (λ b.
                require b (read_jobs (length req.jobs) >>= λ jobs. or_return jobs (read_rest id))
                  (record {
                    rest = (bytes ++ (little 4 (length req.edges) ++ put_edges req.edges)) ++ t;
                    ok = true;
                  }))
              few_test
            ∙ Reads-bind bytes _ (read_jobs (length req.jobs)) _ (some (sent req.jobs os)) _
                (read_jobs-Reads req.jobs os bytes h jobs_ok)
                (read_rest-Reads id (sent req.jobs os) req.edges
                  (omega (arith, few, length-sent req.jobs os)) many
                  (subst (λ n. EdgesOk n req.edges) (sym (length-sent req.jobs os)) edges_ok))
                t)))
  where
    few_test : leb (length req.jobs) max_jobs ≡ true
    few_test = ground (arith, few)

-- A request that its encoder accepts, within its integer types, decodes to its id, jobs with
-- the inputs sent, and edges.
pub decode_request-encode_request :
    (id : ℕ) (req : SubGraphRequest) (overrides : List (Option Payload)) (frame : List ℕ)
    → encode_request id req overrides ≡ some frame
    → id < 2 ^ 64
    → length req.edges < 2 ^ 32
    → length frame < 2 ^ 32
    → JobsOk (sent req.jobs overrides)
    → EdgesOk (length req.jobs) req.edges
    → decode_request frame ≡ some (id, record req { jobs = sent req.jobs overrides })
unfolding decode_request
decode_request-encode_request id req os frame h wide many short jobs_ok edges_ok =
    let (few, bytes, hb, e) = encode_request-some id req os frame h in
    ap decode_request e
    ∙ run-finish request (request_bytes id req bytes) read_request
        (id, record req { jobs = sent req.jobs os })
        (length-finish request (request_bytes id req bytes) frame e short)
        (read_request-Reads id req os bytes hb few wide many jobs_ok edges_ok)
