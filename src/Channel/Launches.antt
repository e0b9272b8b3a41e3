-- ===== src/Channel/Launches.antt =====
-- The invariant of a channel when a request leaves it, or leaves a thread in launch.
use mathlib.Core.Path.{subst}
use sub0pipeline.Prelude.{
  ℕ, ◌+◌, ◌≤◌, ◌<◌, ◌≡◌, refl, sym, ap, ◌∙◌, Bool, true, false, Option, none, some, List, [], ◌∷◌,
  ◌++◌, arith, length, length-append,
}
use sub0pipeline.Channel.{
  Channel, Submission, ConnectionState, Answer, is_connected, find_pending, erase_pending, send,
  take_queued,
}
use sub0pipeline.Channel.Replies.{Settled}
use sub0pipeline.Channel.System.{System, at_once, to_launch, launching_one, settled, HasIds}
use sub0pipeline.Channel.Queue.{
  count_queued, count_pending, count_queued-append, count_answers-append, erase_pending-found,
  send-Sends, Takes, takes_none, takes, take_queued-Takes,
}
use sub0pipeline.Channel.Invariant.{
  ChannelOk, SystemOk, Sends-SendOk, FitFor, AllFit-middle, is_early,
}

-- What takeQueued does to the invariant, when a thread has answered one request.
record TakeOk (c : Channel) (p : Option Submission × Channel) : Type 0 where
  ok : ChannelOk p.1
  same : (p.1.state ≡ c.state) × (p.1.strategy ≡ c.strategy) × (p.1.inline_limit ≡ c.inline_limit)
  fits : FitFor c c.queued → FitFor p.1 p.1.queued
  next_fits : (ls : List Submission) → FitFor c c.queued → FitFor c ls → FitFor c (to_launch p.0 ls)
  conserved :
      (t : ℕ) (ls : List Submission)
      → count_pending t p.1.pending + count_queued t p.1.queued + count_queued t (to_launch p.0 ls)
        ≡ count_pending t c.pending + count_queued t c.queued + count_queued t ls
  busy :
      (ls : List Submission)
      → (0 < length c.queued → c.in_flight_limit ≤ length c.pending + length ls + 1)
      → 0 < length p.1.queued
      → p.1.in_flight_limit ≤ length p.1.pending + length (to_launch p.0 ls)
  early : (ls : List Submission) → is_early c.state ≡ true → ls ≡ [] → to_launch p.0 ls ≡ []

pub is_early-off : (s : ConnectionState) → is_early s ≡ true → is_connected s ≡ false
is_early-off s h = ground (arith, h)

Takes-TakeOk :
    (c : Channel) (p : Option Submission × Channel) → ChannelOk c → Takes c p → TakeOk c p
Takes-TakeOk c _ ok (takes_none e) = record {
  ok = ok;
  same = (refl, refl, refl);
  fits = λ h. h;
  next_fits = λ ls q h. h;
  conserved = λ t ls. refl;
  busy = λ ls h queue. absurd (ground (arith, e, queue));
  early = λ ls h e'. e';
}
Takes-TakeOk c _ ok (takes r rs e) = record {
  ok = record {
    no_pending = ok.no_pending;
    no_queue = λ off. absurd (ground (arith, e, ok.no_queue off));
    below = ok.below;
    slots = ok.slots;
    room = ground (arith, e, ok.room);
  };
  same = (refl, refl, refl);
  fits = λ h. (queue h).1;
  next_fits = λ ls q h. ((queue q).0, h);
  conserved = λ t ls. ground (arith, e);
  busy = λ ls h q. ground (arith, e, h);
  early = λ ls h e'. absurd (ground (arith, e, ok.no_queue (is_early-off c.state h)));
}
  where
    queue : FitFor c c.queued → FitFor c (r ∷ rs)
    queue h = subst (FitFor c) e h

pub launching_one-SystemOk :
    (stopped : Bool) (before : List Submission) (r : Submission) (after : List Submission)
    (s : System)
    → HasIds s
    → s.launching ≡ before ++ r ∷ after
    → SystemOk s
    → SystemOk (launching_one stopped r (before ++ after) s)
unfolding launching_one
launching_one-SystemOk true before r after s small e ok =
    let taken =
      Takes-TakeOk s.channel (take_queued s.channel) ok.channel (take_queued-Takes s.channel) in
    let middle =
      AllFit-middle (is_connected s.channel.state) s.channel.strategy s.channel.inline_limit before
        r after (subst (FitFor s.channel) e ok.launching_fits) in
    record {
      channel = taken.ok;
      conserved = λ t. ground (
        arith,
        taken.conserved t (before ++ after),
        ok.conserved t,
        e,
        count_queued-append t before (r ∷ after),
        count_queued-append t before after,
      );
      busy = taken.busy (before ++ after) (λ q.
          ground
            (arith, ok.busy q, e, length-append before (r ∷ after), length-append before after));
      queue_fits = taken.fits ok.queue_fits;
      launching_fits =
          rw (taken.same.0, taken.same.1, taken.same.2)
            (taken.next_fits (before ++ after) ok.queue_fits middle.1);
      early = λ h. absurd (
          ground (
            arith,
            ok.early (ap is_early (sym taken.same.0) ∙ h),
            e,
            length-append before (r ∷ after),
          ));
    }
launching_one-SystemOk false before r after s small e ok =
    let sent =
      Sends-SendOk r s.channel (send r s.channel) ok.channel
        (send-Sends r s.channel small ok.channel.below) in
    let middle =
      AllFit-middle (is_connected s.channel.state) s.channel.strategy s.channel.inline_limit before
        r after (subst (FitFor s.channel) e ok.launching_fits) in
    record {
      channel = sent.ok;
      conserved = λ t. ground (
        arith,
        sent.conserved t,
        ok.conserved t,
        e,
        count_queued-append t before (r ∷ after),
        count_queued-append t before after,
        count_answers-append t (at_once r.ticket (send r s.channel).0) s.answers,
      );
      busy = sent.busy_launched (length (before ++ after)) middle.0 (λ q.
          ground
            (arith, ok.busy q, e, length-append before (r ∷ after), length-append before after));
      queue_fits = sent.fits ok.queue_fits;
      launching_fits = rw (sent.same.0, sent.same.1, sent.same.2) middle.1;
      early = λ h. absurd (
          ground (
            arith,
            ok.early (ap is_early (sym sent.same.0) ∙ h),
            e,
            length-append before (r ∷ after),
          ));
    }

-- A call that answers the request with an id, or does nothing.
pub data Settles (c : Channel) : Settled → Type 0 where
  unknown : Settles c (record { answers = []; next = none; channel = c })
  answers :
      (r : Submission) (a : Answer) (id : ℕ)
      → find_pending id c.pending ≡ some r
      → Settles c (record {
        answers = (r.ticket, a) ∷ [];
        next = (take_queued (record c { pending = erase_pending id c.pending })).0;
        channel = (take_queued (record c { pending = erase_pending id c.pending })).1;
      })

pub Settles-SystemOk :
    (s : System) (r : Settled) → SystemOk s → Settles s.channel r → SystemOk (settled r s)
Settles-SystemOk s _ ok unknown = record {
  channel = ok.channel;
  conserved = ok.conserved;
  busy = ok.busy;
  queue_fits = ok.queue_fits;
  launching_fits = ok.launching_fits;
  early = ok.early;
}
Settles-SystemOk s _ ok (answers r a id found) =
    let (size, below, counts) =
      erase_pending-found s.channel.next_id id s.channel.pending r found ok.channel.below in
    let c : Channel = record (s.channel) { pending = erase_pending id s.channel.pending } in
    let taken =
      Takes-TakeOk c (take_queued c)
        (record {
          no_pending = λ off. absurd (ground (arith, size, ok.channel.no_pending off));
          no_queue = ok.channel.no_queue;
          below = below;
          slots = omega (arith, size, ok.channel.slots);
          room = ok.channel.room;
        })
        (take_queued-Takes c) in
    record {
      channel = taken.ok;
      conserved = λ t. ground (arith, taken.conserved t s.launching, ok.conserved t, counts t);
      busy = taken.busy s.launching (λ q. omega (arith, ok.busy q, size));
      queue_fits = taken.fits ok.queue_fits;
      launching_fits =
          rw (taken.same.0, taken.same.1, taken.same.2)
            (taken.next_fits s.launching ok.queue_fits ok.launching_fits);
      early = λ h.
          taken.early s.launching (ap is_early (sym taken.same.0) ∙ h)
            (ok.early (ap is_early (sym taken.same.0) ∙ h));
    }
