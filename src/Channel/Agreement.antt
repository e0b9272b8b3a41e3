-- ===== src/Channel/Agreement.antt =====
-- What both sides agree on once a channel is connected.
use sub0pipeline.Prelude.{
  same_bytes, same_bytes_sound, ℕ, ◌≡◌, ◌⊎◌, inl, inr, Bool, true, Option, none, some, List, [],
  ◌∷◌, arith, Bool-cases, Option-cases, List-cases,
}
use sub0pipeline.Types.{PipelineError}
use sub0pipeline.Channel.{
  Channel, Submission, Options, ConnectionState, connected, is_handshaking, send, take_queued,
  settle,
}
use sub0pipeline.Channel.Replies.{handle_reply, fail_pending}
use sub0pipeline.Wire.{SubGraphReply, Payload, Hello, StrategyOffer}
use sub0pipeline.Types.{Expected}
use sub0pipeline.Channel.Handshake.{on_hello_ack, select_strategy, choose, protocol_major, min}
use sub0pipeline.Channel.Invariant.{is_early}

-- The worker's hello was accepted: its version and its registry are the expected ones, the limits are the
-- smaller ones, and the strategy is the one that the worker chose.
pub record Agreed (c : Channel) : Type 0 where
  pub hello : Hello
  pub peer : c.peer ≡ some hello
  pub major : hello.major ≡ protocol_major
  pub fingerprint : hello.fingerprint ≡ c.options.expected_fingerprint
  pub in_flight : c.in_flight_limit ≡ min c.options.max_in_flight hello.max_in_flight
  pub inline_bytes : c.inline_limit ≡ min c.options.max_inline_bytes hello.max_inline_bytes
  pub strategy :
      ((hello.strategies ≡ []) × (c.strategy ≡ none))
      ⊎ ((chosen : StrategyOffer) × (rest : List StrategyOffer) × (hello.strategies ≡ chosen ∷ rest)
          × (c.strategy ≡ some chosen.name))

-- What the requests do not change.
abbrev Terms : Type 0
Terms = Options × ConnectionState × Option Hello × ℕ × ℕ × Option (List ℕ)

abbrev pub terms : Channel → Terms
terms c = (c.options, c.state, c.peer, c.in_flight_limit, c.inline_limit, c.strategy)

pub record AgreesOk (c : Channel) : Type 0 where
  pub early : is_early c.state ≡ true → c.strategy ≡ none
  pub agreed : c.state ≡ connected → Agreed c

recast_Agreed : (c c' : Channel) → terms c' ≡ terms c → Agreed c → Agreed c'
recast_Agreed c c' e h = record {
  hello = h.hello;
  peer = cc (e, h.peer);
  major = h.major;
  fingerprint = cc (e, h.fingerprint);
  in_flight = cc (e, h.in_flight);
  inline_bytes = cc (e, h.inline_bytes);
  strategy = ground (arith, e, h.strategy);
}

pub AgreesOk-terms : (c c' : Channel) → terms c' ≡ terms c → AgreesOk c → AgreesOk c'
AgreesOk-terms c c' e h = record {
  early = λ x. ground (arith, e, x, h.early);
  agreed = λ x. recast_Agreed c c' e (h.agreed (cc (e, x)));
}

pub send-terms : (r : Submission) (c : Channel) → terms (send r c).1 ≡ terms c
unfolding send
send-terms r c = ground arith

pub take_queued-terms : (c : Channel) → terms (take_queued c).1 ≡ terms c
unfolding take_queued
take_queued-terms c = ground arith

pub fail_pending-terms :
    (id : ℕ) (error : PipelineError) (c : Channel)
    → terms (fail_pending id error c).channel ≡ terms c
unfolding fail_pending settle take_queued
fail_pending-terms id error c = ground arith

pub handle_reply-terms :
    (receive : ℕ → Expected Payload) (stopped : ℕ → Bool) (id : ℕ) (reply : SubGraphReply)
    (c : Channel)
    → terms (handle_reply receive stopped id reply c).channel ≡ terms c
unfolding handle_reply settle take_queued
handle_reply-terms receive stopped id reply c = ground arith

choose-name :
    (completes : StrategyOffer → Bool) (chosen : StrategyOffer) (os : List StrategyOffer)
    (name : List ℕ)
    → choose completes chosen os ≡ some name
    → name ≡ chosen.name
unfolding choose
choose-name completes chosen [] name e = absurd (ground (arith, e))
choose-name completes chosen (o ∷ os) name e = elim (Bool-cases (same_bytes o.name chosen.name)) [
  | inl same ↦ ground (arith, e, same, same_bytes_sound o.name chosen.name same)
  | inr other ↦ choose-name completes chosen os name (ground (arith, e, other))
]

on_hello_ack-Agreed :
    (completes : StrategyOffer → Bool) (h : Hello) (c : Channel)
    → c.strategy ≡ none
    → (on_hello_ack completes (some h) c).state ≡ connected
    → is_handshaking c.state ≡ true
    → Agreed (on_hello_ack completes (some h) c)
unfolding on_hello_ack select_strategy
on_hello_ack-Agreed completes h c new on shaking = record {
  hello = h;
  peer = ground arith;
  major = ground (arith, on, shaking);
  fingerprint = ground (arith, on, shaking);
  in_flight = ground (arith, on, shaking);
  inline_bytes = ground (arith, on, shaking);
  strategy = elim (List-cases h.strategies) [
    | inl empty ↦ inl (empty, ground (arith, on, shaking, empty, new))
    | inr (chosen, rest, e) ↦ inr (
      chosen,
      rest,
      e,
      (elim (Option-cases (choose completes chosen c.candidates)) [
        | inl bad ↦ absurd (ground (arith, on, shaking, e, bad))
        | inr (name, good) ↦
            ground
              (arith, on, shaking, e, good, choose-name completes chosen c.candidates name good)
      ]),
    )
  ];
}

pub on_hello_ack-AgreesOk :
    (completes : StrategyOffer → Bool) (h : Option Hello) (c : Channel)
    → AgreesOk c
    → is_handshaking c.state ≡ true
    → AgreesOk (on_hello_ack completes h c)
unfolding on_hello_ack
on_hello_ack-AgreesOk completes none c ok shaking = record {
  early = λ e. absurd (ground (arith, e, shaking));
  agreed = λ e. absurd (ground (arith, e, shaking));
}
on_hello_ack-AgreesOk completes (some h) c ok shaking = record {
  early = λ e. absurd (ground (arith, e, shaking));
  agreed = λ e. on_hello_ack-Agreed completes h c (ok.early (ground (arith, shaking))) e shaking;
}
