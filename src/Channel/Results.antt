-- ===== src/Channel/Results.antt =====
-- What is true of a channel after any steps of its threads.
use sub0pipeline.Prelude.{
  ℕ, ◌+◌, ◌^◌, ◌≤◌, ◌<◌, ◌≡◌, refl, ◌⊎◌, Bool, true, false, [], arith, ltb, length, count,
}
use sub0pipeline.Channel.{
  Submission, Options, new_channel, closed, Sent, refused, waiting, registered, is_connected, send,
  free_capacity,
}
use sub0pipeline.Channel.Handshake.{finish_connect, on_control_frame}
use sub0pipeline.Channel.Replies.{handle_reply, fail_pending}
use sub0pipeline.Channel.System.{System, Reachable}
use sub0pipeline.Channel.Queue.{count_queued, count_pending, count_answers, too_large}
use sub0pipeline.Channel.System.{
  start, connecting, waited, control, submit, launch, failing, replied, lost,
}
use sub0pipeline.Channel.Invariant.{SystemOk, submitting-SystemOk}
use sub0pipeline.Channel.Launches.{launching_one-SystemOk, Settles-SystemOk}
use sub0pipeline.Channel.Conservation.{
  fail_pending-Settles, handle_reply-Settles, lost-SystemOk, Shakes-SystemOk, start_connect-Shakes,
  finish_connect-Shakes, on_control_frame-Shakes,
}

Reachable-SystemOk : {o : Options} {s : System} → Reachable o s → SystemOk s
unfolding new_channel
Reachable-SystemOk start = record {
  channel = record {
    no_pending = λ h. refl;
    no_queue = λ h. refl;
    below = tt;
    slots = omega arith;
    room = omega arith;
  };
  conserved = λ t. refl;
  busy = λ h. absurd (omega (arith, h));
  queue_fits = tt;
  launching_fits = tt;
  early = λ h. refl;
}
Reachable-SystemOk (connecting {s} factories h c r e) =
    Shakes-SystemOk s c (Reachable-SystemOk r) (start_connect-Shakes factories s.channel c h e)
Reachable-SystemOk (waited {s} r) =
    Shakes-SystemOk s (finish_connect s.channel).1 (Reachable-SystemOk r)
      (finish_connect-Shakes s.channel)
Reachable-SystemOk (control {s} completes frame r) =
    Shakes-SystemOk s (on_control_frame completes frame s.channel) (Reachable-SystemOk r)
      (on_control_frame-Shakes completes frame s.channel)
Reachable-SystemOk (submit {s} q small r) = submitting-SystemOk q s small (Reachable-SystemOk r)
Reachable-SystemOk (launch {s} stopped before q after small r e) =
    launching_one-SystemOk stopped before q after s small e (Reachable-SystemOk r)
Reachable-SystemOk (failing {s} id error r) =
    Settles-SystemOk s (fail_pending id error s.channel) (Reachable-SystemOk r)
      (fail_pending-Settles id error s.channel)
Reachable-SystemOk (replied {s} receive stopped id reply r) =
    Settles-SystemOk s (handle_reply receive stopped id reply s.channel) (Reachable-SystemOk r)
      (handle_reply-Settles receive stopped id reply s.channel)
Reachable-SystemOk (lost {s} r) = lost-SystemOk s (Reachable-SystemOk r)

-- In whatever order the threads take their steps, each request that was given to the channel is
-- pending, queued or held by a thread in launch, or its Completion was answered, and it is in
-- one of these once.
pub Reachable-conserves :
    {o : Options} {s : System} (ticket : ℕ)
    → Reachable o s
    → count_queued ticket s.launching
        + count_pending ticket s.channel.pending
        + count_queued ticket s.channel.queued
        + count_answers ticket s.answers
      ≡ count ticket s.submitted
Reachable-conserves ticket r = (Reachable-SystemOk r).conserved ticket

-- No more requests are pending than the limit and no more are queued than the capacity; if the
-- queue is not empty, the pending requests and those that threads in launch hold take up the
-- whole limit.
pub Reachable-limits :
    {o : Options} {s : System}
    → Reachable o s
    → (length s.channel.pending ≤ s.channel.in_flight_limit)
      × (length s.channel.queued ≤ s.channel.options.queue_capacity)
      × ((s.channel.queued ≡ [])
          ⊎ (s.channel.in_flight_limit ≤ length s.channel.pending + length s.launching))
Reachable-limits r =
    let ok = Reachable-SystemOk r in (ok.channel.slots, ok.channel.room, ground (arith, ok.busy))

-- Once the connection is lost and no thread is in launch, every Completion was answered as
-- often as it was given.
pub closed-answers :
    {o : Options} {s : System} (ticket : ℕ)
    → Reachable o s
    → s.channel.state ≡ closed
    → s.launching ≡ []
    → count_answers ticket s.answers ≡ count ticket s.submitted
closed-answers {o} {s} ticket r off gone =
    let ok = Reachable-SystemOk r in
    let on : is_connected s.channel.state ≡ false = ground (arith, off) in
    ground (arith, ok.conserved ticket, ok.channel.no_pending on, ok.channel.no_queue on, gone)

abbrev pub is_accepted : Sent → Bool
is_accepted (refused e) = false
is_accepted waiting = true
is_accepted (registered id) = true

-- If the inputs can travel and the limits add up to less than 2^32, a send is registered or
-- queued when freeCapacity answers more than zero, and is refused when it answers zero.
pub free_capacity-send :
    {o : Options} {s : System} (q : Submission)
    → Reachable o s
    → too_large s.channel q ≡ false
    → s.channel.in_flight_limit + s.channel.options.queue_capacity < 2 ^ 32
    → is_accepted (send q s.channel).0 ≡ ltb 0 (free_capacity s.channel)
unfolding free_capacity send
free_capacity-send {o} {s} q r fits small =
    let ok = Reachable-SystemOk r in ground (arith, fits, small, ok.channel.slots, ok.channel.room)
