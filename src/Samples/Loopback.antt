-- ===== src/Samples/Loopback.antt =====
-- A frame that is sent before the close, for src/remote/loopback_transport.cpp.
use sub0pipeline.Prelude.{◌≡◌, refl, ◌⊎◌, true, false, [], ◌∷◌, ◌++◌}
use sub0pipeline.Loopback.{Shared, new_pair, set_inbox, join_parts, send_parts, close}
use sub0pipeline.Loopback.Delivery.{System, Reachable, start, sends, closes, Reachable-passes}

abbrev empty_pair : Shared
empty_pair = record { closed = false; inbox = λ side. [] }

abbrev one_frame : Shared
one_frame = record { closed = false; inbox = set_inbox false ((1 ∷ 2 ∷ 3 ∷ []) ∷ []) (λ side. []) }

abbrev sent_system : System
sent_system = record {
  shared = one_frame;
  accepted = set_inbox false ((1 ∷ 2 ∷ 3 ∷ []) ∷ []) (λ s. []);
  passed = λ s. [];
  ended = λ s. false;
}

sent_before : Reachable sent_system
unfolding new_pair send_parts join_parts
sent_before = sends true ((1 ∷ 2 ∷ []) ∷ (3 ∷ []) ∷ []) one_frame start refl

abbrev closed_system : System
closed_system = record sent_system { shared = close one_frame }

Reachable-passes_example :
    (closed_system.passed false ++ closed_system.shared.inbox false ≡ closed_system.accepted false)
    × ((closed_system.ended false ≡ false)
        ⊎ ((closed_system.passed false ≡ closed_system.accepted false)
            × (closed_system.shared.closed ≡ true)))
Reachable-passes_example = Reachable-passes false (closes sent_before)
