-- ===== src/Samples/Requests.antt =====
-- Requests of two jobs and their runs, for src/remote/worker_host.cpp.
use sub0pipeline.Prelude.{
  zero, suc, ℕ, ◌<◌, ◌↔◌, refl, Option, List, ◌==◌, if◌then◌else◌, ◌≡◌, true, none, some, [], ◌∷◌,
  arith, length,
}
use sub0pipeline.Types.{JobStatus, Expected, PipelineError, value, unexpected}
use sub0pipeline.Graph.{Graph, count_mask}
use sub0pipeline.Graph.Ranks.{Acyclic}
use sub0pipeline.Validate.{validate}
use sub0pipeline.Run.{run_result, run_jobs}
use sub0pipeline.Invoke.{JobEnv}
use sub0pipeline.Wire.{
  ◌>>=◌, inlined, no_payload, Payload, JobSpec, WireEdge, SubGraphRequest, SubGraphReply,
}
use sub0pipeline.Wire.Encode.{encode_request}
use sub0pipeline.Wire.Decode.{decode_request}
use sub0pipeline.Wire.Entries.{edge_nil, edge_cons}
use sub0pipeline.Worker.Pipeline.{Left, status_after, build, run_work}
use sub0pipeline.Worker.Building.{edges_from, build_decides}
use sub0pipeline.Worker.Answers.{Each, IsOver, IsCycle, run_work-decode_request}
use sub0pipeline.Samples.Runs.{failing}
use sub0pipeline.Graph.Reachable.{empty_graph}
use sub0pipeline.Run.Entry.{run_impl}
use sub0pipeline.Worker.Bodies.{blocked, Played, final_status}
use sub0pipeline.Worker.Rounds.{outcome}
use sub0pipeline.Worker.Outcomes.{NoCancel, final_status_unique}
use sub0pipeline.Samples.Worker.{with_stream}

abbrev small_job : JobSpec
small_job = record {
  kind = record { name = 107 ∷ []; version = 1 };
  input = record { kind = inlined; bytes = [] };
  exported = true;
}

abbrev edge_of : ℕ → ℕ → WireEdge
edge_of from to = record { from = from; to = to }

-- The second job comes after the first, twice.
abbrev chain_request : SubGraphRequest
chain_request = record { jobs = small_job ∷ small_job ∷ []; edges = edge_of 0 1 ∷ edge_of 0 1 ∷ [] }

-- Each of the two jobs comes after the other.
abbrev ring_request : SubGraphRequest
ring_request = record { jobs = small_job ∷ small_job ∷ []; edges = edge_of 0 1 ∷ edge_of 1 0 ∷ [] }

-- The first job answers kCyclicDependency.
abbrev misleading : ℕ → JobEnv
misleading i = record (failing 9 i) {
  body = if i == 0 then unexpected PipelineError.cyclic_dependency else value tt;
}

abbrev nothing_left : ℕ → Left
nothing_left i = record {
  skipped = i == 1;
  code = if i == 0 then 2 else 1;
  message = [];
  output = record { kind = no_payload; bytes = [] };
}

abbrev each_status : SubGraphReply → List ℕ
each_status [] = []
each_status (r ∷ rs) = r.status ∷ each_status rs

abbrev statuses : Option (SubGraphReply × List (Option Payload)) → List ℕ
statuses none = []
statuses (some (reply, _)) = each_status reply

chain_statuses :
    statuses (run_work (λ _. []) chain_request misleading nothing_left with_stream) ≡ 4 ∷ 5 ∷ []
unfolding run_work validate run_result run_jobs
chain_statuses = refl

ring_statuses :
    statuses (run_work (λ _. []) ring_request misleading nothing_left with_stream) ≡ 4 ∷ 4 ∷ []
unfolding run_work validate run_result run_jobs
ring_statuses = refl

unfoldable chain_frame : List ℕ
unfolding encode_request
chain_frame = elim (encode_request 5 chain_request []) [ none ↦ [] | some bytes ↦ bytes ]

chain_decoded : decode_request chain_frame ≡ some (5, chain_request)
unfolding chain_frame encode_request decode_request ◌>>=◌
chain_decoded = refl

run_work-decode_request_example :
    ((run_work (λ _. []) chain_request misleading nothing_left with_stream ≡ none)
      ↔ ((p : ℕ) × (count_mask < edges_from p chain_request.edges)))
    × ((reply : SubGraphReply) (os : List (Option Payload))
        → run_work (λ _. []) chain_request misleading nothing_left with_stream ≡ some (reply, os)
        → (length reply ≡ 2)
          × ((g : Graph) × (build (λ _. []) chain_request ≡ some g)
              × (Acyclic g → Each IsOver reply)
              × (¬ Acyclic g → Each IsCycle reply)))
run_work-decode_request_example =
    run_work-decode_request (λ _. []) chain_frame 5 chain_request misleading nothing_left
      with_stream chain_decoded

-- The chain of two jobs, of which the first answers kCyclicDependency and the second skips itself.
unfoldable chain : Graph
unfolding build
chain = elim (build (λ _. []) chain_request) [ none ↦ empty_graph | some g ↦ g ]

chain_built : build (λ _. []) chain_request ≡ some chain
unfolding chain build
chain_built = refl

chain-Acyclic : Acyclic chain
chain-Acyclic =
    let (_, _, edges) =
      (build_decides (λ _. []) chain_request (edge_cons refl (edge_cons refl edge_nil))).1 chain
        chain_built in
    (λ i. i, λ p s _ _ e. ground (arith, e, edges p s))

abbrev answers : ℕ → Option (Expected (Unit {0}))
answers i = some (if i == 0 then unexpected PipelineError.cyclic_dependency else value tt)

answers-NoCancel : NoCancel 2 answers
answers-NoCancel i l e = ground (arith, e)

abbrev chain_status : ℕ → JobStatus
chain_status = status_after (run_impl chain misleading)

chain_skips :
    (i : ℕ)
    → i < 2
    → (nothing_left i).skipped
      ≡ blocked (λ p. (nothing_left p).skipped) chain_status chain_request.edges i
unfolding chain build run_impl validate run_jobs blocked
chain_skips zero l = refl
chain_skips (suc zero) l = refl
chain_skips (suc (suc i)) l = absurd (omega (arith, l))

chain-Played : Played answers chain_request misleading nothing_left chain_status
chain-Played = record {
  skips = chain_skips;
  codes = λ i l. ground (arith, l);
  answers = λ i l. ground (arith, l);
  unstopped = λ i l. refl;
}

final_status_unique_example :
    (final_status nothing_left chain_status 1
      ≡ outcome (final_status nothing_left chain_status) chain_request.edges answers 1)
    × (final_status nothing_left chain_status 1 ≡ final_status nothing_left chain_status 1)
final_status_unique_example =
    final_status_unique (λ _. []) chain_request chain answers misleading misleading nothing_left
      nothing_left (edge_cons refl (edge_cons refl edge_nil)) chain_built chain-Acyclic
      answers-NoCancel chain-Played chain-Played 1 (omega arith)
