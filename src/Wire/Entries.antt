-- ===== src/Wire/Entries.antt =====
-- The jobs and edges of a request are read back as they were written.
use mathlib.Core.Path.{subst}
use mathlib.Core.List.{append_assoc}
use sub0pipeline.Prelude.{
  ℕ, suc, ◌*◌, ◌/◌, ◌^◌, ◌≤◌, ◌<◌, ◌≡◌, refl, sym, ap, ◌∙◌, Bool, true, false, ◌&&◌, not, Option,
  none, some, List, [], ◌∷◌, ◌++◌, arith, leb, ◌==◌, if◌then◌else◌, length, length-append,
}
use sub0pipeline.Wire.{
  Payload, no_payload, inlined, handle, reference, PayloadKind, JobSpec, WireEdge, max_jobs,
  edge_fits, M, ◌>>=◌, pure, little, read_little, read_string, read_payload, is_ok, remaining,
}
use sub0pipeline.Wire.Encode.{
  put_string, put_payload, put_job, put_jobs, put_edges, overridden, tail, fits, append_to,
}
use sub0pipeline.Wire.Decode.{read_job, read_jobs, read_edge, read_edges, read_rest, require}
use sub0pipeline.Wire.Reads.{
  at, Reads, Reads-bind, Reads-last, Reads-next, PayloadOk, length-little, read_little-Reads,
  read_string-Reads, read_payload-Reads,
}

-- The jobs with the inputs that are sent for them.
unfoldable pub sent : List JobSpec → List (Option Payload) → List JobSpec
unfolding overridden
sent [] os = []
sent (job ∷ jobs) os = record job { input = overridden os job.input } ∷ sent jobs (tail os)

-- A job's version is a uint32_t, and a payload of kind none has no bytes.
pub record JobOk (job : JobSpec) : Type 0 where
  pub version : job.kind.version < 2 ^ 32
  pub nothing : job.input.kind ≡ no_payload → job.input.bytes ≡ []

pub data JobsOk : List JobSpec → Type 0 where
  all_nil : JobsOk []
  all_cons : {job : JobSpec} {jobs : List JobSpec} → JobOk job → JobsOk jobs → JobsOk (job ∷ jobs)

-- SubGraphRequest::edge accepted every edge of a request with that many jobs.
pub data EdgesOk (jobs : ℕ) : List WireEdge → Type 0 where
  edge_nil : EdgesOk jobs []
  edge_cons :
      {e : WireEdge} {es : List WireEdge}
      → edge_fits jobs e ≡ true
      → EdgesOk jobs es
      → EdgesOk jobs (e ∷ es)

fits-PayloadOk : (p : Payload) → fits p ≡ true → (p.kind ≡ no_payload → p.bytes ≡ []) → PayloadOk p
unfolding fits
fits-PayloadOk p h nothing = record {
  long = by_kind p.kind refl;
  handles = λ e. ground (arith, h, e);
  nothing = nothing;
}
  where
    by_kind : (k : PayloadKind) → p.kind ≡ k → length p.bytes < 2 ^ 32
    by_kind no_payload e = ground (arith, h, e)
    by_kind inlined e = ground (arith, h, e)
    by_kind handle e = ground (arith, h, e)
    by_kind reference e = ground (arith, h, e)

abbrev job_bytes : JobSpec → List ℕ
job_bytes job =
    put_string job.kind.name
    ++ (little 4 job.kind.version
        ++ (little 1 (if job.exported then 1 else 0) ++ put_payload job.input))

put_job-some :
    (job : JobSpec) (input : Payload) (bytes : List ℕ)
    → put_job job input ≡ some bytes
    → (length job.kind.name ≤ 65535)
      × (fits input ≡ true)
      × (bytes ≡ job_bytes (record job { input = input }))
unfolding put_job
put_job-some job input bytes h = (ground (arith, h), ground (arith, h), ground (arith, h))

read_job-Reads :
    (job : JobSpec)
    → length job.kind.name ≤ 65535
    → job.kind.version < 2 ^ 32
    → PayloadOk job.input
    → Reads (job_bytes job) read_job (some job)
unfolding read_job
read_job-Reads job name version input =
    Reads-bind (put_string job.kind.name) _ read_string _ job.kind.name (some job)
      (read_string-Reads job.kind.name (omega (arith, name)))
      (Reads-bind (little 4 job.kind.version) _ (read_little 4) _ job.kind.version (some job)
        (read_little-Reads 4 job.kind.version (omega (arith, version)))
        (Reads-bind (little 1 flag) (put_payload job.input) (read_little 1) _ flag (some job)
          (read_little-Reads 1 flag (ground arith))
          (Reads-last (put_payload job.input) read_payload _ (some job.input) (some job)
            (read_payload-Reads job.input input)
            (Reads-next [] is_ok _ true (some job) (λ t. refl)
              (λ t.
                ap (λ b. at t (some (record job { exported = b }))) (flag_back job.exported))))))
  where
    flag : ℕ
    flag = if job.exported then 1 else 0

    flag_back : (b : Bool) → not ((if b then 1 else 0) == 0) ≡ b
    flag_back true = refl
    flag_back false = refl

put_jobs-some :
    (job : JobSpec) (jobs : List JobSpec) (os : List (Option Payload)) (bytes : List ℕ)
    → put_jobs (job ∷ jobs) os ≡ some bytes
    → (xs : List ℕ) × (ys : List ℕ) × (put_job job (overridden os job.input) ≡ some xs)
      × (put_jobs jobs (tail os) ≡ some ys)
      × (bytes ≡ xs ++ ys)
unfolding put_jobs
put_jobs-some job jobs os bytes h =
    split (put_job job (overridden os job.input)) (put_jobs jobs (tail os)) h
  where
    split :
        (a b : Option (List ℕ))
        → append_to a b ≡ some bytes
        → (xs : List ℕ) × (ys : List ℕ) × (a ≡ some xs) × (b ≡ some ys) × (bytes ≡ xs ++ ys)
    split (some xs) (some ys) e = (xs, ys, refl, refl, ground (arith, e))
    split (some xs) none e = ground (arith, e)
    split none b e = ground (arith, e)

-- The jobs that were written are read as the jobs that were sent.
pub read_jobs-Reads :
    (jobs : List JobSpec) (os : List (Option Payload)) (bytes : List ℕ)
    → put_jobs jobs os ≡ some bytes
    → JobsOk (sent jobs os)
    → Reads bytes (read_jobs (length jobs)) (some (sent jobs os))
unfolding read_jobs sent put_jobs
read_jobs-Reads [] os bytes h ok = λ t. ground (arith, no_bytes h)
  where
    no_bytes : put_jobs [] os ≡ some bytes → bytes ≡ []
    no_bytes e = ground (arith, e)
read_jobs-Reads (job ∷ jobs) os bytes h (all_cons ok oks) =
    let (xs, ys, hx, hy, e) = put_jobs-some job jobs os bytes h in
    let (name, fit, ex) = put_job-some job (overridden os job.input) xs hx in
    let first = record job { input = overridden os job.input } in
    subst (λ bs. Reads bs (read_jobs (suc (length jobs))) (some (sent (job ∷ jobs) os))) (sym e)
      (Reads-bind xs ys read_job _ (some first) _
        (subst (λ bs. Reads bs read_job (some first)) (sym ex)
          (read_job-Reads first name ok.version (fits-PayloadOk first.input fit ok.nothing)))
        (Reads-last ys (read_jobs (length jobs)) _ (some (sent jobs (tail os))) _
          (read_jobs-Reads jobs (tail os) ys hy oks) (λ t. refl)))

pub length-put_edges : (es : List WireEdge) → length (put_edges es) ≡ 8 * length es
unfolding put_edges
length-put_edges [] = refl
length-put_edges (e ∷ es) = ground (
  arith,
  length-append (little 4 e.from) (little 4 e.to ++ put_edges es),
  length-append (little 4 e.to) (put_edges es),
  length-little 4 e.from,
  length-little 4 e.to,
  length-put_edges es,
)

read_edge-Reads :
    (jobs : ℕ) (e : WireEdge)
    → jobs ≤ max_jobs
    → edge_fits jobs e ≡ true
    → Reads (little 4 e.from ++ little 4 e.to) (read_edge jobs) (some e)
unfolding read_edge
read_edge-Reads jobs e few fit =
    Reads-bind (little 4 e.from) (little 4 e.to) (read_little 4) _ e.from (some e)
      (read_little-Reads 4 e.from (ground (arith, few, fit)))
      (Reads-last (little 4 e.to) (read_little 4) _ e.to (some e)
        (read_little-Reads 4 e.to (ground (arith, few, fit)))
        (Reads-next [] is_ok _ true (some e) (λ t. refl)
          (λ t. ap (λ b. require b (pure (some e)) (record { rest = t; ok = true })) fit)))

read_edges-Reads :
    (jobs : ℕ) (es : List WireEdge)
    → jobs ≤ max_jobs
    → EdgesOk jobs es
    → Reads (put_edges es) (read_edges jobs (length es)) (some es)
unfolding read_edges put_edges
read_edges-Reads jobs [] few ok = λ t. refl
read_edges-Reads jobs (e ∷ es) few (edge_cons fit ok) =
    subst (λ bs. Reads bs (read_edges jobs (suc (length es))) (some (e ∷ es)))
      (append_assoc (little 4 e.from) (little 4 e.to) (put_edges es))
      (Reads-bind (little 4 e.from ++ little 4 e.to) (put_edges es) (read_edge jobs) _ (some e) _
        (read_edge-Reads jobs e few fit)
        (Reads-last (put_edges es) (read_edges jobs (length es)) _ (some es) _
          (read_edges-Reads jobs es few ok) (λ t. refl)))

-- The test for the edges that are left to read.
enough-Reads {ℓ} :
    {A : Type ℓ} (count : ℕ) (ys : List ℕ) (m : M (Option A)) (w : Option A)
    → length ys ≡ 8 * count
    → Reads ys m w
    → Reads ys (is_ok >>= λ ok. remaining >>= λ left. require (ok && leb count (left / 8)) m) w
unfolding ◌>>=◌
enough-Reads count ys m w size reads t =
    ap (λ b. require b m (record { rest = ys ++ t; ok = true }))
      (enough (length (ys ++ t)) (omega (arith, size, length-append ys t)))
    ∙ reads t
  where
    enough : (n : ℕ) → 8 * count ≤ n → leb count (n / 8) ≡ true
    enough n h = ground (arith, h)

pub read_rest-Reads :
    (id : ℕ) (jobs : List JobSpec) (es : List WireEdge)
    → length jobs ≤ max_jobs
    → length es < 2 ^ 32
    → EdgesOk (length jobs) es
    → Reads
        (little 4 (length es) ++ put_edges es)
        (read_rest id jobs)
        (some (id, record { jobs = jobs; edges = es }))
unfolding read_rest
read_rest-Reads id jobs es few many ok =
    Reads-bind (little 4 (length es)) (put_edges es) (read_little 4) _ (length es) _
      (read_little-Reads 4 (length es) (omega (arith, many)))
      (enough-Reads (length es) (put_edges es) _ _ (length-put_edges es) (
        Reads-last (put_edges es) (read_edges (length jobs) (length es)) _ (some es) _
          (read_edges-Reads (length jobs) es few ok) (λ t. refl)))
