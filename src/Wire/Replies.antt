-- ===== src/Wire/Replies.antt =====
-- decodeReply reads back what encodeReply wrote.
use sub0pipeline.Prelude.{
  ℕ, ◌^◌, ◌≤◌, ◌<◌, ◌≡◌, refl, ap, ◌∙◌, true, Option, some, List, [], ◌∷◌, ◌++◌, arith, leb, length,
}
use sub0pipeline.Wire.{
  Payload, JobResult, SubGraphReply, max_jobs, reply, ◌>>=◌, pure, little, take, read_little,
  read_string, read_payload, is_ok,
}
use sub0pipeline.Wire.Encode.{
  encode_reply, put_string, put_payload, put_result, put_results, overridden, tail,
}
use sub0pipeline.Wire.Decode.{decode_reply, read_reply, read_result, read_results, require, with_id}
use sub0pipeline.Wire.Reads.{
  Reads, Reads-bind, Reads-last, Reads-next, PayloadOk, read_little-Reads, read_string-Reads,
  read_payload-Reads,
}
use sub0pipeline.Wire.RoundTrip.{run-finish, take-le}

-- A result as it is sent: with its override, and with the message cut to 65535 bytes.
abbrev pub sent_result : JobResult → Payload → JobResult
sent_result r output = record r { message = take 65535 r.message; output = output }

unfoldable pub sent_results : SubGraphReply → List (Option Payload) → SubGraphReply
unfolding overridden
sent_results [] os = []
sent_results (r ∷ rs) os = sent_result r (overridden os r.output) ∷ sent_results rs (tail os)

-- The status and the error are bytes, and the output is a payload that the wire can carry.
pub record ResultOk (r : JobResult) : Type 0 where
  pub status : r.status < 256
  pub error : r.error < 256
  pub output : PayloadOk r.output

pub data ResultsOk : SubGraphReply → Type 0 where
  all_nil : ResultsOk []
  all_cons : {r : JobResult} {rs : SubGraphReply} → ResultOk r → ResultsOk rs → ResultsOk (r ∷ rs)

read_result-Reads :
    (r : JobResult) (output : Payload)
    → ResultOk (sent_result r output)
    → Reads (put_result r output) read_result (some (sent_result r output))
unfolding read_result put_result
read_result-Reads r output ok =
    Reads-bind (little 1 r.status)
      (little 1 r.error ++ (put_string back.message ++ put_payload output)) (read_little 1) _
      r.status (some back) (read_little-Reads 1 r.status ok.status)
      (Reads-bind (little 1 r.error) (put_string back.message ++ put_payload output) (read_little 1)
        _ r.error (some back) (read_little-Reads 1 r.error ok.error)
        (Reads-bind (put_string back.message) (put_payload output) read_string _ back.message
          (some back) (read_string-Reads back.message (omega (arith, take-le 65535 r.message)))
          (Reads-last (put_payload output) read_payload _ (some output) (some back)
            (read_payload-Reads output ok.output)
            (Reads-next [] is_ok _ true (some back) (λ t. refl) (λ t. refl)))))
  where
    back : JobResult
    back = sent_result r output

read_results-Reads :
    (rs : SubGraphReply) (os : List (Option Payload))
    → ResultsOk (sent_results rs os)
    → Reads (put_results rs os) (read_results (length rs)) (some (sent_results rs os))
unfolding read_results put_results sent_results
read_results-Reads [] os ok = λ t. refl
read_results-Reads (r ∷ rs) os (all_cons ok oks) =
    Reads-bind (put_result r (overridden os r.output)) (put_results rs (tail os)) read_result _
      (some (sent_result r (overridden os r.output))) _
      (read_result-Reads r (overridden os r.output) ok)
      (Reads-last (put_results rs (tail os)) (read_results (length rs)) _
        (some (sent_results rs (tail os))) _ (read_results-Reads rs (tail os) oks) (λ t. refl))

-- A reply of at most 65536 results decodes to its id and its results, each with the output that
-- is sent for it and the message cut to 65535 bytes, if the id fits 64 bits, the statuses and
-- errors are bytes, each output is a payload that the wire can carry, and the body is below
-- 2^32 bytes.
pub decode_reply-encode_reply :
    (id : ℕ) (results : SubGraphReply) (overrides : List (Option Payload))
    → id < 2 ^ 64
    → length results ≤ max_jobs
    → length (little 8 id ++ (little 4 (length results) ++ put_results results overrides)) < 2 ^ 32
    → ResultsOk (sent_results results overrides)
    → decode_reply (encode_reply id results overrides) ≡ some (id, sent_results results overrides)
unfolding decode_reply encode_reply read_reply
decode_reply-encode_reply id results os wide few short ok =
    run-finish reply (little 8 id ++ (little 4 (length results) ++ put_results results os))
      read_reply (id, sent_results results os) short
      (Reads-bind (little 8 id) (little 4 (length results) ++ put_results results os)
        (read_little 8) _ id _ (read_little-Reads 8 id (omega arith))
        (Reads-bind (little 4 (length results)) (put_results results os) (read_little 4) _
          (length results) _ (read_little-Reads 4 (length results) (omega arith))
          (Reads-next (put_results results os) is_ok _ true _ (λ t. refl)
            (λ t.
              ap
                (λ b.
                  require b (read_results (length results) >>= λ rs. pure (with_id id rs))
                    (record { rest = put_results results os ++ t; ok = true }))
                few_test
              ∙ Reads-last (put_results results os) (read_results (length results)) _
                  (some (sent_results results os)) _ (read_results-Reads results os ok) (λ s. refl)
                  t))))
  where
    few_test : leb (length results) max_jobs ≡ true
    few_test = ground (arith, few)
