-- ===== src/Wire/Accepted.antt =====
-- What decodeRequest of src/remote/wire.cpp accepts, whatever the bytes are.
use mathlib.Core.Path.{subst}
use sub0pipeline.Prelude.{
  ℕ, zero, suc, ◌≤◌, ◌≡◌, ap, refl, Bool, true, false, Option, none, some, List, ◌∷◌, arith, leb,
  ◌&&◌, length, ◌/◌, Option-cases, inl, inr,
}
use sub0pipeline.Wire.{
  JobSpec, SubGraphRequest, max_jobs, Reader, M, ◌>>=◌, pure, read_little, remaining, is_ok,
  body_of, request, edge_fits,
}
use sub0pipeline.Wire.Decode.{
  or_return, require, cons_to, run, start, read_job, read_jobs, read_edge, read_edges, read_rest,
  read_request, decode_request,
}
use sub0pipeline.Wire.Entries.{EdgesOk, edge_nil, edge_cons}

-- Every value that a decoder returns has the property.
abbrev Yields {ℓ κ} : {A : Type ℓ} → (A → Type κ) → M (Option A) → Type (ℓ ⊔ κ)
Yields P m = (r : Reader) → (a : _) → (m r).0 ≡ some a → P a

Yields-next {ℓ κ μ} :
    {A : Type ℓ} {B : Type κ} (P : B → Type μ) (m : M A) (f : A → M (Option B))
    → ((a : A) → Yields P (f a))
    → Yields P (m >>= f)
unfolding ◌>>=◌
Yields-next P m f each r b h = each (m r).0 (m r).1 b h

Yields-chain {ℓ κ μ ν} :
    {A : Type ℓ} {B : Type κ} (P : A → Type μ) (Q : B → Type ν) (m : M (Option A))
    (f : A → M (Option B))
    → Yields P m
    → ((a : A) → P a → Yields Q (f a))
    → Yields Q (m >>= λ o. or_return o f)
unfolding ◌>>=◌
Yields-chain P Q m f first then r b h = elim (Option-cases (m r).0) [
  | inl failed ↦ absurd (ground (arith, failed, h))
  | inr (a, found) ↦ then a (first r a found) (m r).1 b (ground (arith, found, h))
]

Yields-require {ℓ κ} :
    {A : Type ℓ} (P : A → Type κ) (test : Bool) (m : M (Option A))
    → (test ≡ true → Yields P m)
    → Yields P (require test m)
Yields-require P true m good = good refl
Yields-require P false m good = λ r a h. absurd (ground (arith, h))

Yields-pure {ℓ κ} :
    {A : Type ℓ} (P : A → Type κ) (o : Option A) → ((a : A) → o ≡ some a → P a) → Yields P (pure o)
Yields-pure P o good r a h = good a h

Yields-cons {ℓ κ μ} :
    {A : Type ℓ} (P : List A → Type κ) (Q : List A → Type μ) (x : A) (m : M (Option (List A)))
    → Yields P m
    → ((xs : List A) → P xs → Q (x ∷ xs))
    → Yields Q (m >>= λ xs. pure (cons_to x xs))
unfolding ◌>>=◌
Yields-cons P Q x m rest grow r all h = elim (Option-cases (m r).0) [
  | inl failed ↦ absurd (ground (arith, failed, h))
  | inr (xs, found) ↦ subst Q (ground (arith, found, h)) (grow xs (rest r xs found))
]

read_edge-fits : (jobs : ℕ) → Yields (λ e. edge_fits jobs e ≡ true) (read_edge jobs)
unfolding read_edge ◌>>=◌
read_edge-fits jobs r e h = ground (arith, h)

read_edges-EdgesOk : (jobs n : ℕ) → Yields (EdgesOk jobs) (read_edges jobs n)
unfolding read_edges
read_edges-EdgesOk jobs zero = λ r es h. subst (EdgesOk jobs) (ground (arith, h)) edge_nil
read_edges-EdgesOk jobs (suc n) =
    Yields-chain (λ e. edge_fits jobs e ≡ true) (EdgesOk jobs) (read_edge jobs) _
      (read_edge-fits jobs)
      (λ e fit.
        Yields-cons (EdgesOk jobs) (EdgesOk jobs) e (read_edges jobs n) (read_edges-EdgesOk jobs n)
          (λ es ok. edge_cons fit ok))

abbrev Few : ℕ → List JobSpec → Type 0
Few n js = length js ≡ n

read_jobs-Few : (n : ℕ) → Yields (Few n) (read_jobs n)
unfolding read_jobs
read_jobs-Few zero = λ r js h. ground (arith, h)
read_jobs-Few (suc n) =
    Yields-chain (λ _. Unit {0}) (Few (suc n)) read_job _ (λ r a h. tt)
      (λ j _.
        Yields-cons (Few n) (Few (suc n)) j (read_jobs n) (read_jobs-Few n) (λ js few. ap suc few))

-- The jobs and the edges of a request are what SubGraphRequest::edge asks.
abbrev Accepted : ℕ × SubGraphRequest → Type 0
Accepted (_, req) = (length req.jobs ≤ max_jobs) × EdgesOk (length req.jobs) req.edges

read_rest-Accepted :
    (id : ℕ) (jobs : List JobSpec) → length jobs ≤ max_jobs → Yields Accepted (read_rest id jobs)
unfolding read_rest
read_rest-Accepted id jobs few = Yields-next Accepted (read_little 4) _ λ count.
    Yields-next Accepted is_ok _ λ ok. Yields-next Accepted remaining _ λ left.
      Yields-require Accepted (ok && leb count (left / 8)) _ λ test.
        Yields-chain (EdgesOk (length jobs)) Accepted (read_edges (length jobs) count) _
          (read_edges-EdgesOk (length jobs) count)
          λ es fits. λ r a h.
            subst Accepted {x = (id, record { jobs = jobs; edges = es })} {y = a}
              (ground (arith, h)) (few, fits)

read_request-Accepted : Yields Accepted read_request
unfolding read_request
read_request-Accepted = Yields-next Accepted (read_little 8) _ λ id.
    Yields-next Accepted (read_little 4) _ λ count. Yields-next Accepted is_ok _ λ ok.
      Yields-require Accepted (ok && leb count max_jobs) _ λ test.
        Yields-chain (Few count) Accepted (read_jobs count) _ (read_jobs-Few count)
          λ jobs few. read_rest-Accepted id jobs (ground (arith, few, test))

pub decode_request_bounds :
    (frame : List ℕ) (id : ℕ) (req : SubGraphRequest)
    → decode_request frame ≡ some (id, req)
    → (length req.jobs ≤ max_jobs) × EdgesOk (length req.jobs) req.edges
unfolding decode_request
decode_request_bounds frame id req h = by_body (body_of request frame) h
  where
    by_body : (b : Option (List ℕ)) → run b read_request ≡ some (id, req) → Accepted (id, req)
    by_body none e = absurd (ground (arith, e))
    by_body (some body) e = read_request-Accepted (start body) (id, req) e
