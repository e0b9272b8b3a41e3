-- ===== src/Worker/Replies.antt =====
-- The reply that WorkerHost::run of src/remote/worker_host.cpp makes of the jobs of a request.
use sub0pipeline.Prelude.{
  ℕ, ◌+◌, Bool, ◌||◌, not, Option, none, some, List, [], ◌∷◌, leb, ◌==◌, if◌then◌else◌, length,
}
use sub0pipeline.Types.{PipelineError, Expected, value, unexpected}
use sub0pipeline.Wire.{
  no_payload, handle, reference, Payload, JobResult, SubGraphReply, max_handle_bytes,
}
use sub0pipeline.Channel.{error_byte, is_large, no_strategy}

-- What the run left for a job: `skipped`, the status of its handle, `codes`, `errors` and `outputs`, and
-- whether the request exports it.
pub record Finished : Type 0 where
  pub skipped : Bool
  pub status : ℕ
  pub code : ℕ
  pub message : List ℕ
  pub output : Payload
  pub exported : Bool

-- What surrounds the job: the limit, whether there is a strategy, what it and the store answer for the job
-- with an index, and the texts.
pub record Around : Type 0 where
  pub limit : ℕ
  pub strategy : Option (List ℕ)
  pub send : ℕ → Expected (List ℕ)
  pub store : Option (ℕ → Option (List ℕ))
  pub text : ℕ → List ℕ

abbrev pub nothing : Payload
nothing = record { kind = no_payload; bytes = [] }

-- The status, the error and the message; JobStatus::kSkipped is 5.
unfoldable pub plain_result : Bool → (ℕ → List ℕ) → Finished → JobResult
plain_result cyclic text f =
    if cyclic
    then record {
      status = 4;
      error = error_byte PipelineError.cyclic_dependency;
      message = text 0;
      output = nothing;
    }
    else (let status = if f.skipped then 5 else f.status in
        record {
          status = status;
          error =
              if status == 7
              then error_byte PipelineError.cancelled
              else if status == 6
              then error_byte PipelineError.timeout
              else f.code;
          message = f.message;
          output = nothing;
        })

-- `options_.store->put`, or an error without a store.
abbrev pub put_store : Option (ℕ → Option (List ℕ)) → ℕ → Option (List ℕ)
put_store none i = none
put_store (some put) i = put i

abbrev pub failed_result : ℕ → List ℕ → JobResult → JobResult
failed_result error message r = record r {
  status = 4;
  error = error;
  message = message;
  output = nothing;
}

-- A large output when there is no strategy.
unfoldable pub stored_result : Around → ℕ → JobResult → JobResult
stored_result a i r = elim (put_store a.store i) [
  | none ↦ failed_result (error_byte PipelineError.job_failed) (a.text 1) r
  | some key ↦
      if leb (length key) max_handle_bytes
      then record r { output = record { kind = handle; bytes = key } }
      else failed_result (error_byte PipelineError.job_failed) (a.text 1) r
]

-- One round of the loop of run: the result, and its override.
unfoldable pub result_of : Bool → Around → ℕ → Finished → JobResult × Option Payload
unfolding plain_result stored_result
result_of cyclic a i f =
    let r = plain_result cyclic a.text f in
    if cyclic || (not (r.status == 3) || not f.exported)
    then (r, none)
    else if not (is_large a.limit f.output)
    then (record r { output = f.output }, none)
    else if no_strategy a.strategy
    then (stored_result a i r, none)
    else elim (a.send i) [
      | value bytes ↦
          (record r { output = f.output }, some (record { kind = reference; bytes = bytes }))
      | unexpected e ↦ (failed_result (error_byte e) (a.text 2) r, none)
    ]

-- The loop.
unfoldable pub results_of :
    Bool → Around → ℕ → List Finished → SubGraphReply × List (Option Payload)
unfolding result_of
results_of cyclic a i [] = ([], [])
results_of cyclic a i (f ∷ fs) =
    let first = result_of cyclic a i f in
    let rest = results_of cyclic a (i + 1) fs in (first.0 ∷ rest.0, first.1 ∷ rest.1)
