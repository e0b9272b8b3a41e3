-- ===== src/Loopback.antt =====
-- LoopbackTransport of include/sub0pipeline/remote/loopback_transport.hpp and
-- src/remote/loopback_transport.cpp: what a thread does under the mutex is one function. A side is a
-- Boolean, and `not` gives the other one.
pub mod Delivery
use sub0pipeline.Prelude.{
  ℕ, Bool, true, false, not, Option, none, some, List, [], ◌∷◌, ◌++◌, if◌then◌else◌,
}

abbrev pub Frame : Type 0
Frame = List ℕ

pub record Shared : Type 0 where
  pub closed : Bool
  pub inbox : Bool → List Frame

-- pair
unfoldable pub new_pair : Shared
new_pair = record { closed = false; inbox = λ side. [] }

abbrev pub same_side : Bool → Bool → Bool
same_side true b = b
same_side false b = not b

abbrev pub set_inbox : Bool → List Frame → (Bool → List Frame) → Bool → List Frame
set_inbox side frames inbox s = if same_side side s then frames else inbox s

-- The parts of a frame, one after the other.
unfoldable pub join_parts : List (List ℕ) → Frame
join_parts [] = []
join_parts (part ∷ parts) = part ++ join_parts parts

-- sendParts; `none` is TransportError::kClosed.
unfoldable pub send_parts : Bool → List (List ℕ) → Shared → Option Shared
unfolding join_parts
send_parts side parts s =
    if s.closed
    then none
    else some (record s {
      inbox = set_inbox (not side) (s.inbox (not side) ++ join_parts parts ∷ []) s.inbox;
    })

-- send
unfoldable pub send : Bool → Frame → Shared → Option Shared
unfolding send_parts
send side frame s = send_parts side (frame ∷ []) s

-- close
unfoldable pub close : Shared → Shared
close s = record s { closed = true }

-- What the delivery thread of a side does when it has the lock.
pub data Delivered : Type 0 where
  waits ends : Delivered
  passes_on : Frame → Shared → Delivered

-- One round of the loop of start.
unfoldable pub deliver : Bool → Shared → Delivered
deliver side s = elim (s.inbox side) [
  | [] ↦ if s.closed then ends else waits
  | frame ∷ rest ↦ passes_on frame (record s { inbox = set_inbox side rest s.inbox })
]
