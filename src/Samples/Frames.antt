-- ===== src/Samples/Frames.antt =====
-- Frames of the remote protocol, encoded and decoded.
use sub0pipeline.Prelude.{ℕ, ◌≡◌, refl, true, false, Option, none, some, List, [], ◌∷◌, arith}
use sub0pipeline.Wire.{
  little, Payload, no_payload, inlined, handle, JobSpec, JobResult, SubGraphRequest, HelloReject,
}
use sub0pipeline.Wire.Encode.{encode_reply, put_results, encode_request}
use sub0pipeline.Wire.Decode.{decode_reply, decode_request}
use sub0pipeline.Wire.Entries.{sent, all_nil, all_cons, edge_nil, edge_cons}
use sub0pipeline.Wire.Replies.{ResultsOk, sent_results, decode_reply-encode_reply}
use sub0pipeline.Wire.Replies as Replies
use sub0pipeline.Wire.Requests.{decode_request-encode_request}

abbrev refusal : HelloReject
refusal = record { reason = 2; detail = 110 ∷ 111 ∷ [] }

abbrev load : JobSpec
load = record {
  kind = record { name = 108 ∷ []; version = 1 };
  input = record { kind = no_payload; bytes = [] };
  exported = false;
}

abbrev store : JobSpec
store = record {
  kind = record { name = 115 ∷ []; version = 300 };
  input = record { kind = inlined; bytes = 1 ∷ 2 ∷ [] };
  exported = true;
}

abbrev two_jobs : SubGraphRequest
two_jobs = record { jobs = load ∷ store ∷ []; edges = record { from = 0; to = 1 } ∷ [] }

-- The input of the second job, as a strategy stored it elsewhere.
abbrev stored : Payload
stored = record { kind = handle; bytes = 9 ∷ 9 ∷ [] }

abbrev overrides : List (Option Payload)
overrides = none ∷ some stored ∷ []

unfoldable frame : List ℕ
unfolding encode_request
frame = elim (encode_request 5 two_jobs overrides) [ none ↦ [] | some bytes ↦ bytes ]

decode_request-encode_request_example :
    decode_request frame ≡ some (5, record two_jobs { jobs = sent two_jobs.jobs overrides })
unfolding frame encode_request sent
decode_request-encode_request_example =
    decode_request-encode_request 5 two_jobs overrides frame refl (omega arith) (omega arith)
      (omega arith)
      (all_cons (record { version = omega arith; nothing = λ e. refl })
        (all_cons (record { version = omega arith; nothing = λ e. ground (arith, e) }) all_nil))
      (edge_cons refl edge_nil)

abbrev done_result : JobResult
done_result = record {
  status = 3;
  error = 0;
  message = [];
  output = record { kind = inlined; bytes = 7 ∷ [] };
}

decode_reply-encode_reply_example :
    decode_reply (encode_reply 9 (done_result ∷ []) [])
    ≡ some (9, sent_results (done_result ∷ []) [])
unfolding sent_results little put_results
decode_reply-encode_reply_example =
    decode_reply-encode_reply 9 (done_result ∷ []) [] (omega arith) (omega arith) (omega arith) (
      Replies.all_cons
        (record {
          status = omega arith;
          error = omega arith;
          output = record {
            long = omega arith;
            handles = λ e. ground (arith, e);
            nothing = λ e. ground (arith, e);
          };
        })
        Replies.all_nil)
