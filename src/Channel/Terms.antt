-- ===== src/Channel/Terms.antt =====
-- What a connected channel and its worker agree on, after any steps.
use mathlib.Core.Path.{subst}
use sub0pipeline.Prelude.{
  ℕ, ◌≡◌, refl, sym, ◌⊎◌, inl, inr, Bool, true, false, Option, some, List, ◌++◌, arith, Bool-cases,
  Option-cases,
}
use sub0pipeline.Channel.{
  Channel, Submission, Options, new_channel, connected, closed, is_handshaking, send,
}
use sub0pipeline.Channel.Handshake.{on_hello_ack, start_connect, finish_connect, on_control_frame}
use sub0pipeline.Channel.Replies.{handle_reply, fail_pending, on_closed}
use sub0pipeline.Channel.System.{System, submitting, launching_one, Reachable}
use sub0pipeline.Wire.Handshake.{decode_hello}
use sub0pipeline.Wire.{frame_type, same_type, hello_ack, Hello, StrategyOffer}
use sub0pipeline.Channel.Handshake.{on_hello_ack}
use sub0pipeline.Channel.System.{
  start, connecting, waited, control, submit, launch, failing, replied, lost,
}
use sub0pipeline.Channel.Agreement.{
  Agreed, terms, AgreesOk, AgreesOk-terms, send-terms, take_queued-terms, fail_pending-terms,
  handle_reply-terms, on_hello_ack-AgreesOk,
}

on_control_frame-cases :
    (completes : StrategyOffer → Bool) (frame : List ℕ) (c : Channel)
    → (on_control_frame completes frame c ≡ c)
      ⊎ ((on_control_frame completes frame c).state ≡ closed)
      ⊎ ((is_handshaking c.state ≡ true)
          × ((h : Option Hello) × (on_control_frame completes frame c
                ≡ on_hello_ack completes h c)))
unfolding on_control_frame
on_control_frame-cases completes frame c = elim (Bool-cases (is_handshaking c.state)) [
  | inr other ↦ inl (ground (arith, other))
  | inl shaking ↦ elim (Option-cases (frame_type frame)) [
    | inl bad ↦ inr (inl (ground (arith, shaking, bad)))
    | inr (type, good) ↦ elim (Bool-cases (same_type type hello_ack)) [
      | inl ack ↦ inr (inr (shaking, (decode_hello frame, ground (arith, shaking, good, ack))))
      | inr no_ack ↦ inr (inl (ground (arith, shaking, good, no_ack)))
    ]
  ]
]

on_control_frame-AgreesOk :
    (completes : StrategyOffer → Bool) (frame : List ℕ) (c : Channel)
    → AgreesOk c
    → AgreesOk (on_control_frame completes frame c)
on_control_frame-AgreesOk completes frame c ok = elim (on_control_frame-cases completes frame c) [
  | inl same ↦ subst AgreesOk (sym same) ok
  | inr (inl off) ↦ record {
    early = λ e. absurd (ground (arith, e, off));
    agreed = λ e. absurd (ground (arith, e, off));
  }
  | inr (inr (shaking, (h, same))) ↦
      subst AgreesOk (sym same) (on_hello_ack-AgreesOk completes h c ok shaking)
]

finish_connect-AgreesOk : (c : Channel) → AgreesOk c → AgreesOk (finish_connect c).1
unfolding finish_connect
finish_connect-AgreesOk c ok = elim (Bool-cases (is_handshaking c.state)) [
  | inl shaking ↦ record {
    early = λ e. absurd (ground (arith, e, shaking));
    agreed = λ e. absurd (ground (arith, e, shaking));
  }
  | inr other ↦ AgreesOk-terms c (finish_connect c).1 (ground (arith, other)) ok
]

start_connect-AgreesOk :
    (factories : List (Option StrategyOffer)) (h : Hello) (c c' : Channel)
    → start_connect factories c ≡ some (h, c')
    → AgreesOk c
    → AgreesOk c'
unfolding start_connect
start_connect-AgreesOk factories h c c' e ok = record {
  early = λ x. ground (arith, e, ok.early);
  agreed = λ x. absurd (ground (arith, e, x));
}

launching_one-terms :
    (stopped : Bool) (r : Submission) (others : List Submission) (s : System)
    → terms (launching_one stopped r others s).channel ≡ terms s.channel
unfolding launching_one
launching_one-terms true r others s = take_queued-terms s.channel
launching_one-terms false r others s = send-terms r s.channel

Reachable-AgreesOk : {o : Options} {s : System} → Reachable o s → AgreesOk s.channel
unfolding new_channel submitting on_closed
Reachable-AgreesOk start = record { early = λ e. refl; agreed = λ e. absurd (ground (arith, e)) }
Reachable-AgreesOk (connecting {s} factories h c r e) =
    start_connect-AgreesOk factories h s.channel c e (Reachable-AgreesOk r)
Reachable-AgreesOk (waited {s} r) = finish_connect-AgreesOk s.channel (Reachable-AgreesOk r)
Reachable-AgreesOk (control {s} completes frame r) =
    on_control_frame-AgreesOk completes frame s.channel (Reachable-AgreesOk r)
Reachable-AgreesOk (submit {s} q small r) =
    AgreesOk-terms s.channel (send q s.channel).1 (send-terms q s.channel) (Reachable-AgreesOk r)
Reachable-AgreesOk (launch {s} stopped before q after small r e) =
    AgreesOk-terms s.channel (launching_one stopped q (before ++ after) s).channel
      (launching_one-terms stopped q (before ++ after) s) (Reachable-AgreesOk r)
Reachable-AgreesOk (failing {s} id error r) =
    AgreesOk-terms s.channel (fail_pending id error s.channel).channel
      (fail_pending-terms id error s.channel) (Reachable-AgreesOk r)
Reachable-AgreesOk (replied {s} receive stopped id reply r) =
    AgreesOk-terms s.channel (handle_reply receive stopped id reply s.channel).channel
      (handle_reply-terms receive stopped id reply s.channel) (Reachable-AgreesOk r)
Reachable-AgreesOk (lost {s} r) = record {
  early = λ e. absurd (ground (arith, e));
  agreed = λ e. absurd (ground (arith, e));
}

-- A connected channel has the worker's hello, of the same major version and with the expected
-- fingerprint; its limits are the smaller of its own and the worker's; its strategy is the
-- first one that the hello names, or none if it names none.
pub Reachable-Agreed :
    {o : Options} {s : System} → Reachable o s → s.channel.state ≡ connected → Agreed s.channel
Reachable-Agreed r on = (Reachable-AgreesOk r).agreed on
