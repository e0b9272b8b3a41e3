-- ===== src/Samples/Worker.antt =====
-- A worker that takes one request at a time, for src/remote/worker_host.cpp.
use sub0pipeline.Prelude.{
  ℕ, zero, suc, refl, List, ◌+◌, ◌≤◌, ◌≡◌, true, false, none, some, [], ◌∷◌, arith, length, count,
}
use sub0pipeline.Types.{value}
use sub0pipeline.Wire.{little, handle, ◌>>=◌, SubGraphReply, inlined, SubGraphRequest}
use sub0pipeline.Worker.{refused, admit}
use sub0pipeline.Worker.Replies.{Finished, Around, results_of}
use sub0pipeline.Worker.System.{System, arriving, Reachable, start, greeted, arrived}
use sub0pipeline.Worker.Counts.{count_works}
use sub0pipeline.Worker.Steps.{Reachable-admits}
use sub0pipeline.Worker.Outputs.{Carried}
use sub0pipeline.Worker.Sent.{
  AllSendable, none_left, one_more, ShortReferences, decode_reply-results_of,
}
use sub0pipeline.Wire.Encode.{encode_reply, put_results}
use sub0pipeline.Wire.Decode.{decode_reply}
use sub0pipeline.Worker.Capacity.{with_limit, greeting, greeted_system, admit-refuses}

abbrev no_jobs_request : SubGraphRequest
no_jobs_request = record { jobs = []; edges = [] }

-- Two requests come: the first is queued and the second refused.
abbrev full_system : System
full_system =
    arriving 2 (some (9, no_jobs_request)) ([], true)
      (arriving 1 (some (8, no_jobs_request)) ([], true) (greeted_system 1))

full : Reachable (with_limit 1) full_system
full =
    arrived 2 (some (9, no_jobs_request)) ([], true)
      (arrived 1 (some (8, no_jobs_request)) ([], true)
        (greeted (λ o. none) [] (λ i. []) greeting start))

Reachable-admits_example :
    (length full_system.host.queue + length full_system.running + length full_system.replied ≤ 1)
    × (count_works 9 full_system.host.queue
          + count_works 9 full_system.running
          + count_works 9 full_system.dropped
          + count 9 full_system.replies
        ≡ count 9 full_system.requests)
Reachable-admits_example = Reachable-admits 9 (omega arith) full

admit-refuses_example :
    (s : System) × Reachable (with_limit 1) s
    × (s.host.queue ≡ [])
    × (s.running ≡ [])
    × (s.dropped ≡ [])
    × ((admit 3 (some (10, no_jobs_request)) ([], true) s.host).0 ≡ refused 10 true)
admit-refuses_example = admit-refuses 1 3 10 no_jobs_request ([], true) (omega arith)

-- Three bytes are above a limit of two.
abbrev large_output : Finished
large_output = record {
  skipped = false;
  status = 3;
  code = 1;
  message = [];
  output = record { kind = inlined; bytes = 1 ∷ 2 ∷ 3 ∷ [] };
  exported = true;
}

abbrev pub with_stream : Around
with_stream = record {
  limit = 2;
  strategy = some (115 ∷ []);
  send = λ i. value (7 ∷ []);
  store = none;
  text = λ i. [];
}

large_output-sent : AllSendable (large_output ∷ [])
large_output-sent =
    one_more
      (record {
        status = omega arith;
        code = omega arith;
        output = record {
          long = omega arith;
          handles = λ e. omega arith;
          nothing = λ e. ground (arith, e);
        };
      })
      none_left

short_references : ShortReferences with_stream
short_references i bytes e = ground (arith, e)

decode_reply-results_of_example :
    (reply : SubGraphReply) × (decode_reply (
        encode_reply 5
          (results_of false with_stream 0 (large_output ∷ [])).0
          (results_of false with_stream 0 (large_output ∷ [])).1)
      ≡ some (5, reply))
    × Carried 2 (large_output ∷ []) reply
unfolding results_of put_results little
decode_reply-results_of_example =
    decode_reply-results_of 5 false with_stream (large_output ∷ []) (omega arith) (omega arith)
      large_output-sent short_references (omega arith)

-- A job that puts out a handle of 65 bytes: the reply is sent, and decodeReply does not read it.
abbrev zeros : ℕ → List ℕ
zeros zero = []
zeros (suc n) = 0 ∷ zeros n

abbrev long_handle : Finished
long_handle = record large_output { output = record { kind = handle; bytes = zeros 65 } }

long_handle-unread :
    decode_reply (
      encode_reply 5
        (results_of false with_stream 0 (long_handle ∷ [])).0
        (results_of false with_stream 0 (long_handle ∷ [])).1)
    ≡ none
unfolding decode_reply encode_reply results_of ◌>>=◌
long_handle-unread = refl
