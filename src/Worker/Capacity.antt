-- ===== src/Worker/Capacity.antt =====
-- A worker that has answered every request it took, and is still full: run of src/remote/worker_host.cpp
-- sends the reply before runner counts the request out.
use sub0pipeline.Prelude.{
  ℕ, zero, suc, ◌+◌, ◌^◌, ◌≤◌, ◌<◌, ◌≡◌, refl, Bool, true, none, some, List, [], ◌∷◌, ◌++◌, arith,
}
use sub0pipeline.Wire.{◌>>=◌, Payload, SubGraphRequest, hello}
use sub0pipeline.Wire.Encode.{encode_hello}
use sub0pipeline.Wire.Handshake.{decode_hello}
use sub0pipeline.Worker.{
  Options, Work, WorkerHost, new_host, take_work, refused, admit, erase_active,
}
use sub0pipeline.Worker.Frames.{on_hello, acknowledge}
use sub0pipeline.Worker.System.{
  System, arriving, Reachable, start, greeted, arrived, taken, answers,
}

-- A worker with that limit, and a coordinator's hello for it.
abbrev pub with_limit : ℕ → Options
with_limit n = record { max_concurrent_requests = n; max_inline_bytes = 65536; fingerprint = 7 }

abbrev pub greeting : List ℕ
greeting = encode_hello hello (record {
  major = 1;
  minor = 1;
  fingerprint = 7;
  max_in_flight = 8;
  max_inline_bytes = 65536;
  strategies = [];
})

-- `k` requests were taken, and all of them are answered.
record Answered (n k : ℕ) (s : System) : Type 0 where
  reachable : Reachable (with_limit n) s
  options : s.host.options ≡ with_limit n
  handshaken : s.host.handshaken ≡ true
  admitted : s.host.admitted ≡ k
  queue : s.host.queue ≡ []
  running : s.running ≡ []
  dropped : s.dropped ≡ []

abbrev pub greeted_system : ℕ → System
greeted_system n = record {
  host = (on_hello (λ o. none) [] (λ i. []) greeting (new_host (with_limit n))).host;
  running = [];
  replied = [];
  dropped = [];
  requests = [];
  replies = [];
}

greeted-Answered : (n : ℕ) → Answered n 0 (greeted_system n)
unfolding on_hello acknowledge encode_hello decode_hello new_host ◌>>=◌
greeted-Answered n = record {
  reachable = greeted (λ o. none) [] (λ i. []) greeting start;
  options = refl;
  handshaken = refl;
  admitted = refl;
  queue = refl;
  running = refl;
  dropped = refl;
}

abbrev small_work : Work
small_work = record { pointer = 0; id = 1; request = record { jobs = []; edges = [] }; inputs = [] }

abbrev took : WorkerHost → WorkerHost
took h = record h { queue = []; active = (1, small_work) ∷ erase_active 1 h.active }

one_more :
    (n k : ℕ) (s : System)
    → n < 2 ^ 32
    → k < n
    → Answered n k s
    → (s' : System) × Answered n (suc k) s'
unfolding arriving admit take_work
one_more n k s small room ok =
    let came = arriving 0 (some (1, small_work.request)) ([], true) s in
    let host : came.host ≡ record (s.host) { admitted = k + 1; queue = small_work ∷ [] } =
      ground (arith, ok.handshaken, ok.admitted, ok.options, ok.queue, room, small) in
    let rest : (came.running ≡ []) × (came.dropped ≡ []) = (ok.running, ok.dropped) in
    let here = arrived 0 (some (1, small_work.request)) ([], true) ok.reachable in
    let step : take_work came.host ≡ some (small_work, took came.host) = ground (arith, host) in
    (
      record came {
        host = took came.host;
        running = [] ++ came.running;
        replied = small_work ∷ came.replied;
        replies = 1 ∷ came.replies;
      },
      record {
        reachable =
            answers [] small_work came.running (taken small_work (took came.host) here step) refl;
        options = ground (arith, host, ok.options);
        handshaken = ground (arith, host, ok.handshaken);
        admitted = ground (arith, host);
        queue = refl;
        running = ok.running;
        dropped = ok.dropped;
      },
    )

all-Answered : (n k : ℕ) → n < 2 ^ 32 → k ≤ n → (s : System) × Answered n k s
all-Answered n zero small le = (greeted_system n, greeted-Answered n)
all-Answered n (suc k) small le =
    let (s, ok) = all-Answered n k small (omega arith) in one_more n k s small (omega arith) ok

-- For every limit below 2^32 a worker can come to a state in which it has answered every
-- request it took, and refuses the next one as beyond the limit, if its inputs are resolved.
pub admit-refuses :
    (n pointer id : ℕ) (request : SubGraphRequest) (inputs : List Payload × Bool)
    → n < 2 ^ 32
    → (s : System) × Reachable (with_limit n) s
      × (s.host.queue ≡ [])
      × (s.running ≡ [])
      × (s.dropped ≡ [])
      × ((admit pointer (some (id, request)) inputs s.host).0 ≡ refused id inputs.1)
unfolding admit
admit-refuses n pointer id request inputs small =
    let (s, ok) = all-Answered n n small (omega arith) in
    (
      s,
      ok.reachable,
      ok.queue,
      ok.running,
      ok.dropped,
      ground (arith, ok.handshaken, ok.admitted, ok.options),
    )
