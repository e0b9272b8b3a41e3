-- ===== src/Channel/System.antt =====
-- A channel with the threads that use it: each step is what one thread does under the lock, and the steps
-- of several threads come in any order. `launching` are the requests that threads in `launch` of
-- src/remote/channel.cpp hold; `submitted` and `answers` are what the callers gave and got so far.
use sub0pipeline.Prelude.{
  ℕ, ◌+◌, ◌^◌, ◌<◌, ◌≡◌, Bool, Option, none, some, List, [], ◌∷◌, ◌++◌, if◌then◌else◌,
}
use sub0pipeline.Types.{PipelineError, Expected}
use sub0pipeline.Wire.{Payload, SubGraphReply, StrategyOffer, Hello}
use sub0pipeline.Channel.{
  Channel, Submission, Options, new_channel, Answer, succeed, fail, error_byte, Sent, refused,
  waiting, registered, send, take_queued,
}
use sub0pipeline.Channel.Handshake.{start_connect, finish_connect, on_control_frame}
use sub0pipeline.Channel.Replies.{Settled, handle_reply, fail_pending, on_closed}

pub record System : Type 0 where
  pub channel : Channel
  pub launching : List Submission
  pub answers : List (ℕ × Answer)
  pub submitted : List ℕ

abbrev pub at_once : ℕ → Sent → List (ℕ × Answer)
at_once ticket (refused e) = (ticket, fail (error_byte e)) ∷ []
at_once ticket waiting = []
at_once ticket (registered id) = []

-- A thread calls send with a request of its own.
unfoldable pub submitting : Submission → System → System
unfolding send
submitting r s =
    let sent = send r s.channel in
    record {
      channel = sent.1;
      launching = s.launching;
      answers = at_once r.ticket sent.0 ++ s.answers;
      submitted = r.ticket ∷ s.submitted;
    }

abbrev pub to_launch : Option Submission → List Submission → List Submission
to_launch none rs = rs
to_launch (some r) rs = r ∷ rs

-- One round of the loop of launch, by a thread that holds `r`; `others` are held by the other threads.
unfoldable pub launching_one : Bool → Submission → List Submission → System → System
unfolding send take_queued
launching_one stopped r others s =
    if stopped
    then (let taken = take_queued s.channel in
        record s {
          channel = taken.1;
          launching = to_launch taken.0 others;
          answers = (r.ticket, succeed) ∷ s.answers;
        })
    else (let sent = send r s.channel in
        record s {
          channel = sent.1;
          launching = others;
          answers = at_once r.ticket sent.0 ++ s.answers;
        })

abbrev pub settled : Settled → System → System
settled r s = record s {
  channel = r.channel;
  launching = to_launch r.next s.launching;
  answers = r.answers ++ s.answers;
}

-- Ids are 64 bits wide, and have not come round.
abbrev pub HasIds : System → Type 0
HasIds s = s.channel.next_id + 1 < 2 ^ 64

pub data Reachable (o : Options) : System → Type 0 where
  start :
      Reachable o (record { channel = new_channel o; launching = []; answers = []; submitted = [] })
  connecting :
      {s : System} (factories : List (Option StrategyOffer)) (h : Hello) (c : Channel)
      → Reachable o s
      → start_connect factories s.channel ≡ some (h, c)
      → Reachable o (record s { channel = c })
  waited :
      {s : System}
      → Reachable o s
      → Reachable o (record s { channel = (finish_connect s.channel).1 })
  control :
      {s : System} (completes : StrategyOffer → Bool) (frame : List ℕ)
      → Reachable o s
      → Reachable o (record s { channel = on_control_frame completes frame s.channel })
  submit : {s : System} (r : Submission) → HasIds s → Reachable o s → Reachable o (submitting r s)
  launch :
      {s : System} (stopped : Bool) (before : List Submission) (r : Submission)
      (after : List Submission)
      → HasIds s
      → Reachable o s
      → s.launching ≡ before ++ r ∷ after
      → Reachable o (launching_one stopped r (before ++ after) s)
  failing :
      {s : System} (id : ℕ) (error : PipelineError)
      → Reachable o s
      → Reachable o (settled (fail_pending id error s.channel) s)
  replied :
      {s : System} (receive : ℕ → Expected Payload) (stopped : ℕ → Bool) (id : ℕ)
      (reply : SubGraphReply)
      → Reachable o s
      → Reachable o (settled (handle_reply receive stopped id reply s.channel) s)
  lost : {s : System} → Reachable o s → Reachable o (settled (on_closed s.channel) s)
