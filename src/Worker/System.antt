-- ===== src/Worker/System.antt =====
-- A worker with its runner threads: each step is what one thread does under the lock of
-- src/remote/worker_host.cpp, or the sending of a reply, and the steps come in any order. `running` are
-- the Works whose reply is still to be sent, `replied` those between their reply and the end of the round
-- of runner, `dropped` those that serve drops. `requests` and `replies` are the ids that came and that
-- were answered.
use sub0pipeline.Prelude.{ℕ, Bool, ◌≡◌, Option, some, List, [], ◌∷◌, ◌++◌}
use sub0pipeline.Wire.{Payload, SubGraphRequest, StrategyOffer}
use sub0pipeline.Worker.{
  Options, Work, WorkerHost, new_host, take_work, finish_work, Admission, closes, refused, admit,
  cancel, shut_down, on_closed,
}
use sub0pipeline.Worker.Frames.{on_hello}

pub record System : Type 0 where
  pub host : WorkerHost
  pub running : List Work
  pub replied : List Work
  pub dropped : List Work
  pub requests : List ℕ
  pub replies : List ℕ

abbrev pub came : Admission → List ℕ
came closes = []
came (refused id resolved) = id ∷ []
came (Admission.admitted id) = id ∷ []

abbrev pub answered : Admission → List ℕ
answered closes = []
answered (refused id resolved) = id ∷ []
answered (Admission.admitted id) = []

-- A request frame, decoded, and its inputs.
unfoldable pub arriving : ℕ → Option (ℕ × SubGraphRequest) → List Payload × Bool → System → System
unfolding admit
arriving pointer request inputs s =
    let (admission, h) = admit pointer request inputs s.host in
    record s {
      host = h;
      requests = came admission ++ s.requests;
      replies = answered admission ++ s.replies;
    }

pub data Reachable (o : Options) : System → Type 0 where
  start : Reachable o (record {
    host = new_host o;
    running = [];
    replied = [];
    dropped = [];
    requests = [];
    replies = [];
  })
  greeted :
      {s : System} (accepts : StrategyOffer → Option (List ℕ)) (factories : List (Option (List ℕ)))
      (details : ℕ → List ℕ) (frame : List ℕ)
      → Reachable o s
      → Reachable o (record s { host = (on_hello accepts factories details frame s.host).host })
  arrived :
      {s : System} (pointer : ℕ) (request : Option (ℕ × SubGraphRequest))
      (inputs : List Payload × Bool)
      → Reachable o s
      → Reachable o (arriving pointer request inputs s)
  cancelled :
      {s : System} (id : ℕ) → Reachable o s → Reachable o (record s { host = cancel id s.host })
  taken :
      {s : System} (w : Work) (h : WorkerHost)
      → Reachable o s
      → take_work s.host ≡ some (w, h)
      → Reachable o (record s { host = h; running = w ∷ s.running })
  answers :
      {s : System} (before : List Work) (w : Work) (after : List Work)
      → Reachable o s
      → s.running ≡ before ++ w ∷ after
      → Reachable o (record s {
        running = before ++ after;
        replied = w ∷ s.replied;
        replies = w.id ∷ s.replies;
      })
  finished :
      {s : System} (before : List Work) (w : Work) (after : List Work)
      → Reachable o s
      → s.replied ≡ before ++ w ∷ after
      → Reachable o (record s { host = finish_work w s.host; replied = before ++ after })
  closing : {s : System} → Reachable o s → Reachable o (record s { host = on_closed s.host })
  serving_ends :
      {s : System}
      → Reachable o s
      → Reachable o (record s { host = shut_down s.host; dropped = s.host.queue ++ s.dropped })
