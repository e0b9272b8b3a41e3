-- ===== src/Worker/Outputs.antt =====
-- The outputs that a worker's reply carries.
use mathlib.Core.Path.{subst}
use sub0pipeline.Prelude.{
  ℕ, ◌+◌, ◌≡◌, refl, sym, ap, ◌∙◌, ◌⊎◌, inl, inr, Bool, false, not, ◌||◌, Option, none, some, List,
  [], ◌∷◌, arith, ◌==◌, Bool-cases,
}
use sub0pipeline.Wire.{PayloadKind, Payload, JobResult, SubGraphReply}
use sub0pipeline.Wire.Replies.{sent_result, sent_results}
use sub0pipeline.Wire.Encode.{overridden}
use sub0pipeline.Channel.{is_large, no_strategy}
use sub0pipeline.Worker.Replies.{
  nothing, Finished, Around, plain_result, stored_result, result_of, results_of,
}

-- No result of the reply has inline bytes above the limit, only a job that is done has an output, and the
-- reply has one result for each job.
pub data Carried (limit : ℕ) : List Finished → SubGraphReply → Type 0 where
  no_jobs : Carried limit [] []
  carries :
      {fs : List Finished} {rs : SubGraphReply} (f : Finished) (r : JobResult)
      → is_large limit r.output ≡ false
      → (r.output.kind ≡ PayloadKind.no_payload) ⊎ (r.status ≡ 3)
      → Carried limit fs rs
      → Carried limit (f ∷ fs) (r ∷ rs)

stored_result-small :
    (a : Around) (i : ℕ) (r : JobResult)
    → r.status ≡ 3
    → (is_large a.limit (stored_result a i r).output ≡ false)
      × (((stored_result a i r).output.kind ≡ PayloadKind.no_payload)
          ⊎ ((stored_result a i r).status ≡ 3))
unfolding stored_result
stored_result-small a i r done = (ground arith, ground (arith, done))

-- What is written for one job: its result, with the override or the output.
abbrev Fine : ℕ → JobResult × Option Payload → Type 0
Fine limit p =
    (is_large limit (overridden (p.1 ∷ []) p.0.output) ≡ false)
    × (((overridden (p.1 ∷ []) p.0.output).kind ≡ PayloadKind.no_payload) ⊎ (p.0.status ≡ 3))

pub plain_result-output :
    (cyclic : Bool) (text : ℕ → List ℕ) (f : Finished)
    → (plain_result cyclic text f).output ≡ nothing
unfolding plain_result
plain_result-output cyclic text f = ground arith

result_of-Fine :
    (cyclic : Bool) (a : Around) (i : ℕ) (f : Finished) → Fine a.limit (result_of cyclic a i f)
unfolding result_of overridden
result_of-Fine cyclic a i f =
    let r = plain_result cyclic a.text f in
    elim (Bool-cases (cyclic || (not (r.status == 3) || not f.exported))) [
      | inl plain ↦ (
        ground (arith, plain, plain_result-output cyclic a.text f),
        ground (arith, plain, plain_result-output cyclic a.text f),
      )
      | inr exported ↦ elim (Bool-cases (is_large a.limit f.output)) [
        | inr small ↦ (ground (arith, exported, small), ground (arith, exported, small))
        | inl large ↦ elim (Bool-cases (no_strategy a.strategy)) [
          | inl stored ↦
              let (one, two) = stored_result-small a i r (ground (arith, exported)) in
              (
                ground (arith, exported, large, stored, one),
                ground (arith, exported, large, stored, two),
              )
          | inr sent ↦
              (ground (arith, exported, large, sent), ground (arith, exported, large, sent))
        ]
      ]
    ]

pub overridden-first :
    (o : Option Payload) (os : List (Option Payload)) (p : Payload)
    → overridden (o ∷ []) p ≡ overridden (o ∷ os) p
unfolding overridden
overridden-first none os p = refl
overridden-first (some q) os p = refl

-- The results as they are written, one for each job.
pub results_of-Carried :
    (cyclic : Bool) (a : Around) (i : ℕ) (fs : List Finished)
    → Carried a.limit fs (sent_results (results_of cyclic a i fs).0 (results_of cyclic a i fs).1)
unfolding results_of sent_results overridden
results_of-Carried cyclic a i [] = no_jobs
results_of-Carried cyclic a i (f ∷ fs) =
    let p = result_of cyclic a i f in
    let os = (results_of cyclic a (i + 1) fs).1 in
    let same = overridden-first p.1 os p.0.output in
    let (small, kind) = result_of-Fine cyclic a i f in
    carries f (sent_result p.0 (overridden (p.1 ∷ os) p.0.output))
      (ap (is_large a.limit) (sym same) ∙ small)
      (subst (λ (q : Payload). (q.kind ≡ PayloadKind.no_payload) ⊎ (p.0.status ≡ 3)) same kind)
      (results_of-Carried cyclic a (i + 1) fs)
