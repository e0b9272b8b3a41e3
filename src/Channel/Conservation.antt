-- ===== src/Channel/Conservation.antt =====
-- What is true of a channel after any steps of its threads.
use mathlib.Core.Path.{subst}
use sub0pipeline.Prelude.{
  ℕ, ◌≡◌, refl, sym, ◌∙◌, ◌⊎◌, inl, inr, Bool, true, Option, some, List, [], ◌∷◌, ◌++◌, arith,
  if◌then◌else◌, length, Option-cases,
}
use sub0pipeline.Types.{PipelineError}
use sub0pipeline.Channel.{
  Channel, Submission, Answer, find_pending, erase_pending, take_queued, settle, no_strategy,
}
use sub0pipeline.Channel.Handshake.{
  on_hello_ack, select_strategy, start_connect, finish_connect, on_control_frame,
}
use sub0pipeline.Channel.Replies.{
  Settled, handle_reply, fail_pending, on_closed, unavailable_pending, unavailable_queued,
}
use sub0pipeline.Channel.System.{System, settled}
use sub0pipeline.Channel.Queue.{
  count_answers-append, count_unavailable_pending, count_unavailable_queued,
}
use sub0pipeline.Wire.{SubGraphReply, Payload, Hello, StrategyOffer}
use sub0pipeline.Types.{Expected, unexpected}
use sub0pipeline.Channel.{fail, error_byte}
use sub0pipeline.Channel.Replies.{collect, reply_answer}
use sub0pipeline.Channel.Invariant.{SystemOk, AllFit-off, is_early}
use sub0pipeline.Channel.Launches.{is_early-off, Settles, unknown, answers}

recast_Settles : (c : Channel) (r r' : Settled) → r ≡ r' → Settles c r → Settles c r'
recast_Settles c r r' e h = rw (sym e) h

-- What a call that finds its request leaves.
abbrev pub answered : Submission → Answer → ℕ → Channel → Settled
answered r a id c =
    let taken = take_queued (record c { pending = erase_pending id c.pending }) in
    record { answers = (r.ticket, a) ∷ []; next = taken.0; channel = taken.1 }

pub fail_pending-Settles :
    (id : ℕ) (error : PipelineError) (c : Channel) → Settles c (fail_pending id error c)
unfolding fail_pending settle
fail_pending-Settles id error c = elim (Option-cases (find_pending id c.pending)) [
  | inl gone ↦ recast_Settles c _ (fail_pending id error c) (ground (arith, gone)) unknown
  | inr (r, found) ↦
      recast_Settles c (answered r (fail (error_byte error)) id c) (fail_pending id error c)
        (ground (arith, found)) (answers r (fail (error_byte error)) id found)
]

pub handle_reply-Settles :
    (receive : ℕ → Expected Payload) (stopped : ℕ → Bool) (id : ℕ) (reply : SubGraphReply)
    (c : Channel)
    → Settles c (handle_reply receive stopped id reply c)
unfolding handle_reply settle
handle_reply-Settles receive stopped id reply c = elim (Option-cases (find_pending id c.pending)) [
  | inl gone ↦
      recast_Settles c _ (handle_reply receive stopped id reply c) (ground (arith, gone)) unknown
  | inr (r, found) ↦
      let results =
        collect
          (if no_strategy c.strategy then (λ i. unexpected PipelineError.job_failed) else receive) 0
          reply in
      let a = reply_answer (stopped r.ticket) results (length r.request.jobs) in
      recast_Settles c (answered r a id c) (handle_reply receive stopped id reply c)
        (ground (arith, found)) (answers r a id found)
]

pub lost-SystemOk : (s : System) → SystemOk s → SystemOk (settled (on_closed s.channel) s)
unfolding on_closed
lost-SystemOk s ok = record {
  channel = record {
    no_pending = λ off. refl;
    no_queue = λ off. refl;
    below = tt;
    slots = omega arith;
    room = omega arith;
  };
  conserved = λ t. ground (
    arith,
    ok.conserved t,
    count_unavailable_pending t s.channel.pending,
    count_unavailable_queued t s.channel.queued,
    count_answers-append t (unavailable_pending s.channel.pending)
        (unavailable_queued s.channel.queued),
    count_answers-append t
        (unavailable_pending s.channel.pending ++ unavailable_queued s.channel.queued) s.answers,
  );
  busy = λ queue. absurd (omega (arith, queue));
  queue_fits = tt;
  launching_fits = AllFit-off s.channel.strategy s.channel.inline_limit s.launching;
  early = λ h. absurd (ground (arith, h));
}

-- A step of the handshake keeps the requests; it changes other things only before the connection is made.
pub record Shakes (c c' : Channel) : Type 0 where
  pending : c'.pending ≡ c.pending
  queued : c'.queued ≡ c.queued
  options : c'.options ≡ c.options
  change : (c' ≡ c) ⊎ (is_early c.state ≡ true)

pub Shakes-SystemOk :
    (s : System) (c' : Channel)
    → SystemOk s
    → Shakes s.channel c'
    → SystemOk (record s { channel = c' })
Shakes-SystemOk s c' ok shakes = elim (shakes.change) [
  | inl same ↦ subst (λ c. SystemOk (record s { channel = c })) (sym same) ok
  | inr early ↦
      let off = is_early-off s.channel.state early in
      let pending : c'.pending ≡ [] = shakes.pending ∙ ok.channel.no_pending off in
      let queued : c'.queued ≡ [] = shakes.queued ∙ ok.channel.no_queue off in
      let launching = ok.early early in
      record {
        channel = record {
          no_pending = λ h. pending;
          no_queue = λ h. queued;
          below = rw pending tt;
          slots = ground (arith, pending);
          room = ground (arith, queued);
        };
        conserved = λ t. ground (arith, ok.conserved t, shakes.pending, shakes.queued);
        busy = λ h. absurd (ground (arith, h, queued));
        queue_fits = rw queued tt;
        launching_fits = rw launching tt;
        early = λ h. launching;
      }
]

pub start_connect-Shakes :
    (factories : List (Option StrategyOffer)) (c c' : Channel) (h : Hello)
    → start_connect factories c ≡ some (h, c')
    → Shakes c c'
unfolding start_connect
start_connect-Shakes factories c c' h e = record {
  pending = ground (arith, e);
  queued = ground (arith, e);
  options = ground (arith, e);
  change = ground (arith, e);
}

pub finish_connect-Shakes : (c : Channel) → Shakes c (finish_connect c).1
unfolding finish_connect
finish_connect-Shakes c = record {
  pending = ground arith;
  queued = ground arith;
  options = ground arith;
  change = ground arith;
}

pub on_control_frame-Shakes :
    (completes : StrategyOffer → Bool) (frame : List ℕ) (c : Channel)
    → Shakes c (on_control_frame completes frame c)
unfolding on_control_frame on_hello_ack select_strategy
on_control_frame-Shakes completes frame c = record {
  pending = ground arith;
  queued = ground arith;
  options = ground arith;
  change = ground arith;
}
