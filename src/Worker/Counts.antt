-- ===== src/Worker/Counts.antt =====
-- How many requests a worker has taken, and which of them it has answered.
use sub0pipeline.Prelude.{
  ℕ, ◌+◌, ◌^◌, ◌≤◌, ◌<◌, ◌≡◌, sym, ◌∙◌, inl, inr, Bool, not, ◌||◌, Option, none, some, List, [],
  ◌∷◌, ◌++◌, arith, leb, ◌==◌, if◌then◌else◌, length, length-append, count, Bool-cases, inc32,
}
use sub0pipeline.Wire.{Payload, SubGraphRequest, StrategyOffer}
use sub0pipeline.Worker.{Options, Work, WorkerHost, Admission, closes, refused, admit, cancel}
use sub0pipeline.Worker.Frames.{on_hello, acknowledge}
use sub0pipeline.Worker.System.{System, came, answered}

abbrev pub count_works : ℕ → List Work → ℕ
count_works id [] = 0
count_works id (w ∷ ws) = (if id == w.id then 1 else 0) + count_works id ws

pub count_works-append :
    (id : ℕ) (xs ys : List Work) → count_works id (xs ++ ys) ≡ count_works id xs + count_works id ys
count_works-append id [] ys = omega arith
count_works-append id (x ∷ xs) ys = omega (arith, count_works-append id xs ys)

-- The counter is right, and each request is in one place.
pub record SystemOk (o : Options) (s : System) : Type 0 where
  pub options : s.host.options ≡ o
  pub admitted :
      s.host.admitted ≡ length s.host.queue + length s.running + length s.replied + length s.dropped
  pub most : s.host.admitted ≤ o.max_concurrent_requests
  pub conserved :
      (id : ℕ)
      → count_works id s.host.queue
          + count_works id s.running
          + count_works id s.dropped
          + count id s.replies
        ≡ count id s.requests

-- A step that changes neither the counter nor the queue.
pub same-SystemOk :
    (o : Options) (s : System) (h : WorkerHost)
    → h.options ≡ s.host.options
    → h.admitted ≡ s.host.admitted
    → h.queue ≡ s.host.queue
    → SystemOk o s
    → SystemOk o (record s { host = h })
same-SystemOk o s h options counter queue ok = record {
  options = options ∙ ok.options;
  admitted = ground (arith, counter, queue, ok.admitted);
  most = ground (arith, counter, ok.most);
  conserved = λ id. ground (arith, queue, ok.conserved id);
}

-- What admit does.
pub data Admits (h : WorkerHost) : Admission × WorkerHost → Type 0 where
  ends : Admits h (closes, h)
  refuses : (id : ℕ) (resolved : Bool) → Admits h (refused id resolved, h)
  admits :
      (w : Work)
      → h.admitted < h.options.max_concurrent_requests
      → Admits h (
        Admission.admitted w.id,
        record h { admitted = inc32 h.admitted; queue = h.queue ++ w ∷ [] },
      )

recast_Admits : (h : WorkerHost) (p q : Admission × WorkerHost) → p ≡ q → Admits h p → Admits h q
recast_Admits h p q e a = rw (sym e) a

pub admit-Admits :
    (pointer : ℕ) (request : Option (ℕ × SubGraphRequest)) (inputs : List Payload × Bool)
    (h : WorkerHost)
    → Admits h (admit pointer request inputs h)
unfolding admit
admit-Admits pointer none inputs h = ends
admit-Admits pointer (some (id, request)) inputs h = elim (Bool-cases h.handshaken) [
  | inr early ↦
      recast_Admits h _ (admit pointer (some (id, request)) inputs h) (ground (arith, early)) ends
  | inl on ↦ elim (Bool-cases (leb h.options.max_concurrent_requests h.admitted || not inputs.1)) [
    | inl full ↦
        recast_Admits h _ (admit pointer (some (id, request)) inputs h) (ground (arith, on, full))
          (refuses id inputs.1)
    | inr free ↦
        let w : Work = record {
          pointer = pointer;
          id = id;
          request = request;
          inputs = inputs.0;
        } in
        recast_Admits h
          (
            Admission.admitted w.id,
            record h { admitted = inc32 h.admitted; queue = h.queue ++ w ∷ [] },
          )
          (admit pointer (some (id, request)) inputs h) (ground (arith, on, free))
          (admits w (ground (arith, free)))
  ]
]

pub Admits-SystemOk :
    (o : Options) (s : System) (p : Admission × WorkerHost)
    → o.max_concurrent_requests < 2 ^ 32
    → SystemOk o s
    → Admits s.host p
    → SystemOk o (record s {
      host = p.1;
      requests = came p.0 ++ s.requests;
      replies = answered p.0 ++ s.replies;
    })
Admits-SystemOk o s _ small ok ends = record {
  options = ok.options;
  admitted = ok.admitted;
  most = ok.most;
  conserved = ok.conserved;
}
Admits-SystemOk o s _ small ok (refuses id resolved) = record {
  options = ok.options;
  admitted = ok.admitted;
  most = ok.most;
  conserved = λ i. ground (arith, ok.conserved i);
}
Admits-SystemOk o s _ small ok (admits w free) =
    let limit : s.host.admitted < o.max_concurrent_requests = ground (arith, free, ok.options) in
    record {
      options = ok.options;
      admitted = ground (arith, limit, small, ok.admitted, length-append s.host.queue (w ∷ []));
      most = ground (arith, limit, small);
      conserved = λ i. ground (arith, ok.conserved i, count_works-append i s.host.queue (w ∷ []));
    }

pub on_hello-Same :
    (accepts : StrategyOffer → Option (List ℕ)) (factories : List (Option (List ℕ)))
    (details : ℕ → List ℕ) (frame : List ℕ) (h : WorkerHost)
    → ((on_hello accepts factories details frame h).host.options ≡ h.options)
      × ((on_hello accepts factories details frame h).host.admitted ≡ h.admitted)
      × ((on_hello accepts factories details frame h).host.queue ≡ h.queue)
unfolding on_hello acknowledge
on_hello-Same accepts factories details frame h = (ground arith, ground arith, ground arith)

pub cancel-Same :
    (id : ℕ) (h : WorkerHost)
    → ((cancel id h).options ≡ h.options)
      × ((cancel id h).admitted ≡ h.admitted)
      × ((cancel id h).queue ≡ h.queue)
unfolding cancel
cancel-Same id h = (ground arith, ground arith, ground arith)
