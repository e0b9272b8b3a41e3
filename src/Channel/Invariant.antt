-- ===== src/Channel/Invariant.antt =====
-- What holds of a channel and the threads that use it, whatever steps they take.
use sub0pipeline.Prelude.{
  ℕ, ◌+◌, ◌≤◌, ◌<◌, ◌≡◌, refl, sym, ap, ◌∙◌, inl, inr, Bool, true, false, ◌&&◌, Option, List, [],
  ◌∷◌, ◌++◌, arith, length, length-append, count, Bool-cases,
}
use sub0pipeline.Channel.{
  Channel, Submission, ConnectionState, idle, handshaking, Sent, is_connected, send, no_strategy,
  any_large,
}
use sub0pipeline.Channel.System.{System, at_once, submitting, HasIds}
use sub0pipeline.Channel.Queue.{
  one_if, count_queued, count_pending, count_answers, count_queued-append, count_answers-append,
  IdsBelow, IdsBelow-mono, too_large, Sends, refuses, waits, registers, send-Sends,
}

-- A channel that is not connected holds no request; the others hold no more than their limits.
pub record ChannelOk (c : Channel) : Type 0 where
  pub no_pending : is_connected c.state ≡ false → c.pending ≡ []
  pub no_queue : is_connected c.state ≡ false → c.queued ≡ []
  pub below : IdsBelow c.next_id c.pending
  pub slots : length c.pending ≤ c.in_flight_limit
  pub room : length c.queued ≤ c.options.queue_capacity

-- A connected channel could send the requests.
abbrev pub AllFit : Bool → Option (List ℕ) → ℕ → List Submission → Type 0
AllFit on strategy limit [] = Unit {0}
AllFit on strategy limit (r ∷ rs) =
    (on ≡ true → (no_strategy strategy && any_large limit r.request.jobs) ≡ false)
    × AllFit on strategy limit rs

abbrev pub FitFor : Channel → List Submission → Type 0
FitFor c rs = AllFit (is_connected c.state) c.strategy c.inline_limit rs

pub AllFit-off :
    (strategy : Option (List ℕ)) (limit : ℕ) (rs : List Submission) → AllFit false strategy limit rs
AllFit-off strategy limit [] = tt
AllFit-off strategy limit (r ∷ rs) = (λ e. absurd (ground (arith, e)), AllFit-off strategy limit rs)

AllFit-append :
    (on : Bool) (strategy : Option (List ℕ)) (limit : ℕ) (xs ys : List Submission)
    → AllFit on strategy limit xs
    → AllFit on strategy limit ys
    → AllFit on strategy limit (xs ++ ys)
AllFit-append on strategy limit [] ys hx hy = hy
AllFit-append on strategy limit (x ∷ xs) ys hx hy =
    (hx.0, AllFit-append on strategy limit xs ys hx.1 hy)

-- The middle one, and the others.
pub AllFit-middle :
    (on : Bool) (strategy : Option (List ℕ)) (limit : ℕ) (xs : List Submission) (r : Submission)
    (ys : List Submission)
    → AllFit on strategy limit (xs ++ r ∷ ys)
    → (on ≡ true → (no_strategy strategy && any_large limit r.request.jobs) ≡ false)
      × AllFit on strategy limit (xs ++ ys)
AllFit-middle on strategy limit [] r ys h = h
AllFit-middle on strategy limit (x ∷ xs) r ys h =
    let (here, rest) = AllFit-middle on strategy limit xs r ys h.1 in (here, (h.0, rest))

-- The connection is still to be made.
abbrev pub is_early : ConnectionState → Bool
is_early idle = true
is_early handshaking = true
is_early _ = false

pub record SystemOk (s : System) : Type 0 where
  pub channel : ChannelOk s.channel
  pub conserved :
      (t : ℕ)
      → count_queued t s.launching
          + count_pending t s.channel.pending
          + count_queued t s.channel.queued
          + count_answers t s.answers
        ≡ count t s.submitted
  pub busy :
      0 < length s.channel.queued
      → s.channel.in_flight_limit ≤ length s.channel.pending + length s.launching
  pub queue_fits : FitFor s.channel s.channel.queued
  pub launching_fits : FitFor s.channel s.launching
  pub early : is_early s.channel.state ≡ true → s.launching ≡ []

-- A send keeps a channel's invariant, and the ticket goes to one place.
pub record SendOk (r : Submission) (c : Channel) (p : Sent × Channel) : Type 0 where
  pub ok : ChannelOk p.1
  pub same :
      (p.1.state ≡ c.state) × (p.1.strategy ≡ c.strategy) × (p.1.inline_limit ≡ c.inline_limit)
  pub fits : FitFor c c.queued → FitFor p.1 p.1.queued
  pub conserved :
      (t : ℕ)
      → count_pending t p.1.pending
          + count_queued t p.1.queued
          + count_answers t (at_once r.ticket p.0)
        ≡ one_if t r.ticket + count_pending t c.pending + count_queued t c.queued
  pub busy :
      (ls : ℕ)
      → (0 < length c.queued → c.in_flight_limit ≤ length c.pending + ls)
      → 0 < length p.1.queued
      → p.1.in_flight_limit ≤ length p.1.pending + ls
  -- A thread in launch that held the request leaves it.
  pub busy_launched :
      (ls : ℕ)
      → (is_connected c.state ≡ true → too_large c r ≡ false)
      → (0 < length c.queued → c.in_flight_limit ≤ length c.pending + ls + 1)
      → 0 < length p.1.queued
      → p.1.in_flight_limit ≤ length p.1.pending + ls

pub Sends-SendOk :
    (r : Submission) (c : Channel) (p : Sent × Channel) → ChannelOk c → Sends r c p → SendOk r c p
Sends-SendOk r c _ ok (refuses e why) = record {
  ok = ok;
  same = (refl, refl, refl);
  fits = λ h. h;
  conserved = λ t. omega arith;
  busy = λ ls h. h;
  busy_launched = λ ls fit h queue. elim why [
    | inl off ↦ absurd (ground (arith, ok.no_queue off, queue))
    | inr (inl large) ↦ elim (Bool-cases (is_connected c.state)) [
      | inl on ↦ absurd (ground (arith, large, fit on))
      | inr off ↦ absurd (ground (arith, ok.no_queue off, queue))
    ]
    | inr (inr full) ↦ omega (arith, full)
  ];
}
Sends-SendOk r c _ ok (waits on fine full free) = record {
  ok = record {
    no_pending = ok.no_pending;
    no_queue = λ off. absurd (ground (arith, on, off));
    below = ok.below;
    slots = ok.slots;
    room = ground (arith, free, length-append c.queued (r ∷ []));
  };
  same = (refl, refl, refl);
  fits = λ h.
      AllFit-append (is_connected c.state) c.strategy c.inline_limit c.queued (r ∷ []) h
        ((λ e. fine), tt);
  conserved = λ t. ground (arith, count_queued-append t c.queued (r ∷ []));
  busy = λ ls h queue. omega (arith, full);
  busy_launched = λ ls fit h queue. omega (arith, full);
}
Sends-SendOk r c _ ok (registers on fine free) = record {
  ok = record {
    no_pending = λ off. absurd (ground (arith, on, off));
    no_queue = ok.no_queue;
    below = (omega arith, IdsBelow-mono c.next_id (c.next_id + 1) c.pending (omega arith) ok.below);
    slots = ground (arith, free);
    room = ok.room;
  };
  same = (refl, refl, refl);
  fits = λ h. h;
  conserved = λ t. omega arith;
  busy = λ ls h queue. ground (arith, h queue);
  busy_launched = λ ls fit h queue. ground (arith, h queue);
}

pub submitting-SystemOk :
    (r : Submission) (s : System) → HasIds s → SystemOk s → SystemOk (submitting r s)
unfolding submitting
submitting-SystemOk r s small ok =
    let sent =
      Sends-SendOk r s.channel (send r s.channel) ok.channel
        (send-Sends r s.channel small ok.channel.below) in
    record {
      channel = sent.ok;
      conserved = λ t. ground (
        arith,
        sent.conserved t,
        ok.conserved t,
        count_answers-append t (at_once r.ticket (send r s.channel).0) s.answers,
      );
      busy = sent.busy (length s.launching) ok.busy;
      queue_fits = sent.fits ok.queue_fits;
      launching_fits = rw (sent.same.0, sent.same.1, sent.same.2) ok.launching_fits;
      early = λ e. ok.early (ap is_early (sym sent.same.0) ∙ e);
    }
