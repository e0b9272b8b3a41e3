-- ===== src/Worker/Steps.antt =====
-- Every step of a worker keeps the counts.
use sub0pipeline.Prelude.{
  ℕ, ◌+◌, ◌^◌, ◌≤◌, ◌<◌, ◌≡◌, refl, inl, inr, some, List, ◌∷◌, ◌++◌, arith, length, length-append,
  count, List-cases,
}
use sub0pipeline.Worker.{
  Options, Work, WorkerHost, new_host, take_work, finish_work, admit, cancel, shut_down, on_closed,
}
use sub0pipeline.Worker.Frames.{on_hello}
use sub0pipeline.Worker.System.{
  System, arriving, Reachable, start, greeted, arrived, cancelled, taken, answers, finished,
  closing, serving_ends,
}
use sub0pipeline.Worker.Counts.{
  count_works, count_works-append, SystemOk, same-SystemOk, admit-Admits, Admits-SystemOk,
  on_hello-Same, cancel-Same,
}

taken-SystemOk :
    (o : Options) (s : System) (w : Work) (h : WorkerHost)
    → take_work s.host ≡ some (w, h)
    → SystemOk o s
    → SystemOk o (record s { host = h; running = w ∷ s.running })
unfolding take_work
taken-SystemOk o s w h e ok = elim (List-cases s.host.queue) [
  | inl empty ↦ absurd (ground (arith, e, empty))
  | inr (v, rest, q) ↦
      let taken : w ≡ v = ground (arith, e, q) in
      record {
        options = ground (arith, e, q, ok.options);
        admitted = ground (arith, e, q, ok.admitted);
        most = ground (arith, e, q, ok.most);
        conserved = λ i. ground (arith, e, q, taken, ok.conserved i);
      }
]

answers-SystemOk :
    (o : Options) (s : System) (before : List Work) (w : Work) (after : List Work)
    → s.running ≡ before ++ w ∷ after
    → SystemOk o s
    → SystemOk o (record s {
      running = before ++ after;
      replied = w ∷ s.replied;
      replies = w.id ∷ s.replies;
    })
answers-SystemOk o s before w after e ok = record {
  options = ok.options;
  admitted =
      ground (arith, ok.admitted, e, length-append before (w ∷ after), length-append before after);
  most = ok.most;
  conserved = λ i. ground (
    arith,
    ok.conserved i,
    e,
    count_works-append i before (w ∷ after),
    count_works-append i before after,
  );
}

finished-SystemOk :
    (o : Options) (s : System) (before : List Work) (w : Work) (after : List Work)
    → o.max_concurrent_requests < 2 ^ 32
    → s.replied ≡ before ++ w ∷ after
    → SystemOk o s
    → SystemOk o (record s { host = finish_work w s.host; replied = before ++ after })
unfolding finish_work
finished-SystemOk o s before w after small e ok =
    let one : length s.replied ≡ length (before ++ after) + 1 =
      ground (arith, e, length-append before (w ∷ after), length-append before after) in
    record {
      options = ok.options;
      admitted = ground (arith, ok.admitted, one, ok.most, small);
      most = ground (arith, ok.admitted, ok.most, one, small);
      conserved = ok.conserved;
    }

serving_ends-SystemOk :
    (o : Options) (s : System)
    → SystemOk o s
    → SystemOk o (record s { host = shut_down s.host; dropped = s.host.queue ++ s.dropped })
unfolding shut_down
serving_ends-SystemOk o s ok = record {
  options = ok.options;
  admitted = ground (arith, ok.admitted, length-append s.host.queue s.dropped);
  most = ok.most;
  conserved = λ i. ground (arith, ok.conserved i, count_works-append i s.host.queue s.dropped);
}

Reachable-SystemOk :
    {o : Options} {s : System} → o.max_concurrent_requests < 2 ^ 32 → Reachable o s → SystemOk o s
unfolding new_host arriving on_closed
Reachable-SystemOk small start = record {
  options = refl;
  admitted = refl;
  most = omega arith;
  conserved = λ id. refl;
}
Reachable-SystemOk {o} small (greeted {s} accepts factories details frame r) =
    let (options, counter, queue) = on_hello-Same accepts factories details frame s.host in
    same-SystemOk o s (on_hello accepts factories details frame s.host).host options counter queue
      (Reachable-SystemOk small r)
Reachable-SystemOk {o} small (arrived {s} pointer request inputs r) =
    Admits-SystemOk o s (admit pointer request inputs s.host) small (Reachable-SystemOk small r)
      (admit-Admits pointer request inputs s.host)
Reachable-SystemOk {o} small (cancelled {s} id r) =
    let (options, counter, queue) = cancel-Same id s.host in
    same-SystemOk o s (cancel id s.host) options counter queue (Reachable-SystemOk small r)
Reachable-SystemOk {o} small (taken {s} w h r e) =
    taken-SystemOk o s w h e (Reachable-SystemOk small r)
Reachable-SystemOk {o} small (answers {s} before w after r e) =
    answers-SystemOk o s before w after e (Reachable-SystemOk small r)
Reachable-SystemOk {o} small (finished {s} before w after r e) =
    finished-SystemOk o s before w after small e (Reachable-SystemOk small r)
Reachable-SystemOk {o} small (closing {s} r) =
    same-SystemOk o s (on_closed s.host) refl refl refl (Reachable-SystemOk small r)
Reachable-SystemOk {o} small (serving_ends {s} r) =
    serving_ends-SystemOk o s (Reachable-SystemOk small r)

-- A worker whose limit is below 2^32 never has more than that many requests queued, running and
-- between their reply and the end of their round; and each request that it took or refused is
-- queued, running, dropped at the end, or answered, and in one of these once.
pub Reachable-admits :
    {o : Options} {s : System} (id : ℕ)
    → o.max_concurrent_requests < 2 ^ 32
    → Reachable o s
    → (length s.host.queue + length s.running + length s.replied ≤ o.max_concurrent_requests)
      × (count_works id s.host.queue
            + count_works id s.running
            + count_works id s.dropped
            + count id s.replies
          ≡ count id s.requests)
Reachable-admits id small r =
    let ok = Reachable-SystemOk small r in (omega (arith, ok.admitted, ok.most), ok.conserved id)
