-- ===== src/Samples/Channel.antt =====
-- A channel with one slot and a queue of one, for src/remote/channel.cpp.
use sub0pipeline.Prelude.{ℕ, ◌+◌, ◌≤◌, ◌≡◌, refl, ◌⊎◌, true, List, [], arith, ltb, length, count}
use sub0pipeline.Wire.{◌>>=◌, hello_ack}
use sub0pipeline.Wire.Encode.{encode_hello}
use sub0pipeline.Wire.Handshake.{decode_hello}
use sub0pipeline.Channel.{
  Channel, Options, new_channel, Submission, handshaking, send, free_capacity,
}
use sub0pipeline.Channel.Handshake.{
  start_connect, offers, on_control_frame, on_hello_ack, select_strategy,
}
use sub0pipeline.Channel.Replies.{on_closed}
use sub0pipeline.Channel.System.{
  System, Reachable, start, connecting, control, submit, lost, submitting, settled,
}
use sub0pipeline.Channel.Queue.{count_queued, count_pending, count_answers}
use sub0pipeline.Channel.Results.{
  Reachable-conserves, Reachable-limits, closed-answers, free_capacity-send, is_accepted,
}
use sub0pipeline.Channel.Agreement.{Agreed}
use sub0pipeline.Channel.Terms.{Reachable-Agreed}

abbrev one_slot : Options
one_slot = record {
  expected_fingerprint = 7;
  max_in_flight = 1;
  queue_capacity = 1;
  max_inline_bytes = 64;
}

abbrev worker_ack : List ℕ
worker_ack = encode_hello hello_ack (record {
  major = 1;
  minor = 1;
  fingerprint = 7;
  max_in_flight = 4;
  max_inline_bytes = 32;
  strategies = [];
})

abbrev empty_system : System
empty_system = record {
  channel = new_channel one_slot;
  launching = [];
  answers = [];
  submitted = [];
}

abbrev shaking_channel : Channel
shaking_channel = record (new_channel one_slot) { state = handshaking; candidates = [] }

abbrev connected_channel : Channel
connected_channel = on_control_frame (λ o. true) worker_ack shaking_channel

abbrev connected_system : System
connected_system = record empty_system { channel = connected_channel }

abbrev request_of : ℕ → Submission
request_of ticket = record { ticket = ticket; request = record { jobs = []; edges = [] } }

-- Two requests: the second one waits.
abbrev waiting_system : System
waiting_system = submitting (request_of 6) (submitting (request_of 5) connected_system)

reached : Reachable one_slot connected_system
unfolding new_channel start_connect offers
reached = control (λ o. true) worker_ack (connecting [] _ shaking_channel start refl)

waited_for : Reachable one_slot waiting_system
unfolding new_channel on_control_frame on_hello_ack select_strategy decode_hello encode_hello ◌>>=◌
    submitting send
waited_for = submit (request_of 6) (omega arith) (submit (request_of 5) (omega arith) reached)

-- The connection is lost.
abbrev lost_system : System
lost_system = settled (on_closed waiting_system.channel) waiting_system

Reachable-conserves_example :
    count_queued 6 waiting_system.launching
      + count_pending 6 waiting_system.channel.pending
      + count_queued 6 waiting_system.channel.queued
      + count_answers 6 waiting_system.answers
    ≡ count 6 waiting_system.submitted
Reachable-conserves_example = Reachable-conserves 6 waited_for

Reachable-limits_example :
    (length waiting_system.channel.pending ≤ waiting_system.channel.in_flight_limit)
    × (length waiting_system.channel.queued ≤ waiting_system.channel.options.queue_capacity)
    × ((waiting_system.channel.queued ≡ [])
        ⊎ (waiting_system.channel.in_flight_limit
            ≤ length waiting_system.channel.pending + length waiting_system.launching))
Reachable-limits_example = Reachable-limits waited_for

closed-answers_example : count_answers 6 lost_system.answers ≡ count 6 lost_system.submitted
unfolding submitting on_closed
closed-answers_example = closed-answers 6 (lost waited_for) refl refl

free_capacity-send_example :
    is_accepted (send (request_of 7) waiting_system.channel).0
    ≡ ltb 0 (free_capacity waiting_system.channel)
unfolding new_channel on_control_frame on_hello_ack select_strategy decode_hello encode_hello ◌>>=◌
    submitting send
free_capacity-send_example = free_capacity-send (request_of 7) waited_for refl (omega arith)

Reachable-Agreed_example : Agreed connected_channel
unfolding new_channel on_control_frame on_hello_ack select_strategy decode_hello encode_hello ◌>>=◌
Reachable-Agreed_example = Reachable-Agreed reached refl
