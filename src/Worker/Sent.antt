-- ===== src/Worker/Sent.antt =====
-- The reply frame of WorkerHost::run of src/remote/worker_host.cpp, as decodeReply of src/remote/wire.cpp
-- reads it.
use mathlib.Core.Path.{subst}
use sub0pipeline.Prelude.{
  ℕ, suc, ◌≤◌, ◌++◌, ◌+◌, ◌^◌, ◌<◌, ◌≡◌, length, refl, ap, inl, inr, Bool, not, ◌||◌, Option, none,
  some, List, [], ◌∷◌, arith, ◌==◌, Bool-cases,
}
use sub0pipeline.Wire.{
  max_jobs, little, max_handle_bytes, handle, no_payload, Payload, JobResult, SubGraphReply,
}
use sub0pipeline.Wire.Replies.{
  sent_results, ResultsOk, all_nil, all_cons, decode_reply-encode_reply,
}
use sub0pipeline.Wire.Decode.{decode_reply}
use sub0pipeline.Wire.Reads.{PayloadOk}
use sub0pipeline.Types.{PipelineError, value, Expected-cases}
use sub0pipeline.Wire.Encode.{overridden, put_results, encode_reply}
use sub0pipeline.Channel.{is_large, no_strategy, error_byte}
use sub0pipeline.Worker.Replies.{
  Finished, Around, plain_result, stored_result, result_of, results_of,
}
use sub0pipeline.Worker.Outputs.{Carried, plain_result-output, overridden-first, results_of-Carried}

-- What a run left that fits its types and the wire: bytes for the status and the error, and an output
-- that the wire can carry.
pub record Sendable (f : Finished) : Type 0 where
  pub status : f.status < 256
  pub code : f.code < 256
  pub output : PayloadOk f.output

pub data AllSendable : List Finished → Type 0 where
  none_left : AllSendable []
  one_more :
      {f : Finished} {fs : List Finished} → Sendable f → AllSendable fs → AllSendable (f ∷ fs)

-- The references of the strategy are below 2^32 bytes.
abbrev pub ShortReferences : Around → Type 0
ShortReferences a = (i : ℕ) (bytes : List ℕ) → a.send i ≡ value bytes → length bytes < 2 ^ 32

-- The output that is written for a result.
abbrev written : JobResult × Option Payload → Payload
written p = overridden (p.1 ∷ []) p.0.output

plain_result-bytes :
    (cyclic : Bool) (text : ℕ → List ℕ) (f : Finished)
    → Sendable f
    → ((plain_result cyclic text f).status < 256) × ((plain_result cyclic text f).error < 256)
unfolding plain_result
plain_result-bytes cyclic text f ok = (ground (arith, ok.status), ground (arith, ok.code))

error_byte-lt : (e : PipelineError) → error_byte e < 256
error_byte-lt e = ground arith

record Carriable (p : JobResult × Option Payload) : Type 0 where
  status : p.0.status < 256
  error : p.0.error < 256
  long : length (written p).bytes < 2 ^ 32
  handles : (written p).kind ≡ handle → length (written p).bytes ≤ max_handle_bytes
  empty : (written p).kind ≡ no_payload → (written p).bytes ≡ []

stored_result-Carriable :
    (a : Around) (i : ℕ) (r : JobResult)
    → r.status < 256
    → r.error < 256
    → Carriable (stored_result a i r, none)
unfolding stored_result overridden
stored_result-Carriable a i r status error = record {
  status = ground (arith, status);
  error = ground (arith, error);
  long = ground arith;
  handles = λ e. ground (arith, e);
  empty = λ e. ground (arith, e);
}

result_of-Carriable :
    (cyclic : Bool) (a : Around) (i : ℕ) (f : Finished)
    → Sendable f
    → ShortReferences a
    → Carriable (result_of cyclic a i f)
unfolding result_of overridden
result_of-Carriable cyclic a i f ok short =
    let r = plain_result cyclic a.text f in
    let (status, error) = plain_result-bytes cyclic a.text f ok in
    elim (Bool-cases (cyclic || (not (r.status == 3) || not f.exported))) [
      | inl plain ↦
          let none_there = plain_result-output cyclic a.text f in
          record {
            status = ground (arith, plain, status);
            error = ground (arith, plain, error);
            long = ground (arith, plain, none_there);
            handles = λ e. ground (arith, plain, none_there, e);
            empty = λ e. ground (arith, plain, none_there, e);
          }
      | inr exported ↦ elim (Bool-cases (is_large a.limit f.output)) [
        | inr small ↦ record {
          status = ground (arith, exported, small, status);
          error = ground (arith, exported, small, error);
          long = ground (arith, exported, small, ok.output.long);
          handles = λ e. ground (arith, exported, small, ok.output.handles, e);
          empty = λ e. ground (arith, exported, small, ok.output.nothing, e);
        }
        | inl large ↦ elim (Bool-cases (no_strategy a.strategy)) [
          | inl stored ↦
              let there = stored_result-Carriable a i r status error in
              record {
                status = ground (arith, exported, large, stored, there.status);
                error = ground (arith, exported, large, stored, there.error);
                long = ground (arith, exported, large, stored, there.long);
                handles = λ e. ground (arith, exported, large, stored, there.handles, e);
                empty = λ e. ground (arith, exported, large, stored, there.empty, e);
              }
          | inr sent ↦ elim (Expected-cases (a.send i)) [
            | inl (e, failed) ↦ record {
              status = ground (arith, exported, large, sent, failed);
              error = ground (arith, exported, large, sent, failed, error_byte-lt e);
              long = ground (arith, exported, large, sent, failed);
              handles = λ k. ground (arith, exported, large, sent, failed, k);
              empty = λ k. ground (arith, exported, large, sent, failed, k);
            }
            | inr (bytes, answer) ↦ record {
              status = ground (arith, exported, large, sent, answer, status);
              error = ground (arith, exported, large, sent, answer, error);
              long = ground (arith, exported, large, sent, answer, short i bytes answer);
              handles = λ k. ground (arith, exported, large, sent, answer, k);
              empty = λ k. ground (arith, exported, large, sent, answer, k);
            }
          ]
        ]
      ]
    ]

results_of-ResultsOk :
    (cyclic : Bool) (a : Around) (i : ℕ) (fs : List Finished)
    → AllSendable fs
    → ShortReferences a
    → ResultsOk (sent_results (results_of cyclic a i fs).0 (results_of cyclic a i fs).1)
unfolding results_of sent_results
results_of-ResultsOk cyclic a i [] all short = all_nil
results_of-ResultsOk cyclic a i (f ∷ fs) (one_more ok all) short =
    let p = result_of cyclic a i f in
    let os = (results_of cyclic a (i + 1) fs).1 in
    let fine = result_of-Carriable cyclic a i f ok short in
    let output : PayloadOk (written p) = record {
      long = fine.long;
      handles = fine.handles;
      nothing = fine.empty;
    } in
    all_cons
      (record {
        status = fine.status;
        error = fine.error;
        output = subst PayloadOk (overridden-first p.1 os p.0.output) output;
      })
      (results_of-ResultsOk cyclic a (i + 1) fs all short)

length-results :
    (cyclic : Bool) (a : Around) (i : ℕ) (fs : List Finished)
    → length (results_of cyclic a i fs).0 ≡ length fs
unfolding results_of
length-results cyclic a i [] = refl
length-results cyclic a i (f ∷ fs) = ap suc (length-results cyclic a (i + 1) fs)

-- The body of the frame that run sends.
abbrev pub reply_body : ℕ → SubGraphReply × List (Option Payload) → List ℕ
reply_body id (rs, os) = little 8 id ++ (little 4 (length rs) ++ put_results rs os)

-- If what the run left for each job is a byte for the status and for the error and an output
-- that the wire can carry, the references of the strategy are below 2^32 bytes, and there are
-- at most 65536 jobs, an id below 2^64 and a body below 2^32 bytes, decodeReply reads the frame
-- that run sends, and what it reads has the id and one result for each job, none with inline
-- bytes above the limit, and one with an output only for a job that is done.
pub decode_reply-results_of :
    (id : ℕ) (cyclic : Bool) (a : Around) (fs : List Finished)
    → id < 2 ^ 64
    → length fs ≤ max_jobs
    → AllSendable fs
    → ShortReferences a
    → length (reply_body id (results_of cyclic a 0 fs)) < 2 ^ 32
    → (reply : SubGraphReply) × (decode_reply
          (encode_reply id (results_of cyclic a 0 fs).0 (results_of cyclic a 0 fs).1)
        ≡ some (id, reply))
      × Carried a.limit fs reply
decode_reply-results_of id cyclic a fs wide few all short body =
    let (rs, os) = results_of cyclic a 0 fs in
    (
      sent_results rs os,
      decode_reply-encode_reply id rs os wide (omega (arith, few, length-results cyclic a 0 fs))
          body (results_of-ResultsOk cyclic a 0 fs all short),
      results_of-Carried cyclic a 0 fs,
    )
