-- ===== src/Loopback/Delivery.antt =====
-- What each side of a loopback pair is passed.
use mathlib.Core.Path.{subst}
use sub0pipeline.Prelude.{
  ℕ, ◌≡◌, refl, sym, ap, ◌∙◌, ◌⊎◌, inl, inr, Bool, true, false, not, some, List, [], ◌∷◌, ◌++◌,
  if◌then◌else◌, arith, Bool-cases, List-cases,
}
use mathlib.Core.List.{append_assoc, append-nil}
use sub0pipeline.Loopback.{
  Frame, Shared, new_pair, same_side, set_inbox, join_parts, send_parts, close, ends, passes_on,
  deliver,
}

-- A pair with what was accepted for each side, what each side was passed, and whether it was told of the close.
pub record System : Type 0 where
  pub shared : Shared
  pub accepted : Bool → List Frame
  pub passed : Bool → List Frame
  pub ended : Bool → Bool

pub data Reachable : System → Type 0 where
  start :
      Reachable
        (record { shared = new_pair; accepted = λ s. []; passed = λ s. []; ended = λ s. false })
  sends :
      {s : System} (side : Bool) (parts : List (List ℕ)) (shared : Shared)
      → Reachable s
      → send_parts side parts s.shared ≡ some shared
      → Reachable (record s {
        shared = shared;
        accepted = set_inbox (not side) (s.accepted (not side) ++ join_parts parts ∷ []) s.accepted;
      })
  closes : {s : System} → Reachable s → Reachable (record s { shared = close s.shared })
  delivers :
      {s : System} (side : Bool) (frame : Frame) (shared : Shared)
      → Reachable s
      → s.ended side ≡ false
      → deliver side s.shared ≡ passes_on frame shared
      → Reachable (record s {
        shared = shared;
        passed = set_inbox side (s.passed side ++ frame ∷ []) s.passed;
      })
  finishes :
      {s : System} (side : Bool)
      → Reachable s
      → s.ended side ≡ false
      → deliver side s.shared ≡ ends
      → Reachable (record s { ended = λ t. if same_side side t then true else s.ended t })

-- One side's frames: those passed and those that wait are the accepted ones, in order.
record SideOk (side : Bool) (s : System) : Type 0 where
  whole : s.passed side ++ s.shared.inbox side ≡ s.accepted side
  last : s.ended side ≡ true → (s.shared.inbox side ≡ []) × (s.shared.closed ≡ true)

same_side-cases : (a b : Bool) → ((same_side a b ≡ true) × (a ≡ b)) ⊎ (same_side a b ≡ false)
same_side-cases true true = inl (refl, refl)
same_side-cases true false = inr refl
same_side-cases false true = inr refl
same_side-cases false false = inl (refl, refl)

sends-SideOk :
    (me side : Bool) (frame : Frame) (s : System)
    → s.shared.closed ≡ false
    → SideOk me s
    → SideOk me (record s {
      shared = record (s.shared) {
        inbox = set_inbox (not side) (s.shared.inbox (not side) ++ frame ∷ []) s.shared.inbox;
      };
      accepted = set_inbox (not side) (s.accepted (not side) ++ frame ∷ []) s.accepted;
    })
sends-SideOk me side frame s on ok = elim (same_side-cases (not side) me) [
  | inl (same, e) ↦ record {
    whole =
        ground
          (arith, same, e, ok.whole, append_assoc (s.passed me) (s.shared.inbox me) (frame ∷ []));
    last = λ h. absurd (ground (arith, on, ok.last h));
  }
  | inr other ↦ record {
    whole = ground (arith, other, ok.whole);
    last = λ h. absurd (ground (arith, on, ok.last h));
  }
]

delivers-SideOk :
    (me side : Bool) (frame : Frame) (rest : List Frame) (s : System)
    → s.ended side ≡ false
    → s.shared.inbox side ≡ frame ∷ rest
    → SideOk me s
    → SideOk me (record s {
      shared = record (s.shared) { inbox = set_inbox side rest s.shared.inbox };
      passed = set_inbox side (s.passed side ++ frame ∷ []) s.passed;
    })
delivers-SideOk me side frame rest s on e ok = elim (same_side-cases side me) [
  | inl (same, here) ↦ record {
    whole = ground (arith, same, here, e, ok.whole, append_assoc (s.passed me) (frame ∷ []) rest);
    last = λ h. absurd (ground (arith, on, here, h));
  }
  | inr other ↦ record {
    whole = ground (arith, other, ok.whole);
    last = λ h. ground (arith, other, ok.last h);
  }
]

finishes-SideOk :
    (me side : Bool) (s : System)
    → s.shared.inbox side ≡ []
    → s.shared.closed ≡ true
    → SideOk me s
    → SideOk me (record s { ended = λ t. if same_side side t then true else s.ended t })
finishes-SideOk me side s empty off ok = record {
  whole = ok.whole;
  last = elim (same_side-cases side me) [
    | inl (same, here) ↦ λ h. (ground (arith, here, empty), off)
    | inr other ↦ λ h. ok.last (ground (arith, other, h))
  ];
}

send_parts-open :
    (side : Bool) (parts : List (List ℕ)) (s t : Shared)
    → send_parts side parts s ≡ some t
    → (s.closed ≡ false)
      × (record s {
        inbox = set_inbox (not side) (s.inbox (not side) ++ join_parts parts ∷ []) s.inbox;
      }
          ≡ t)
unfolding send_parts
send_parts-open side parts s t e = elim (Bool-cases s.closed) [
  | inl off ↦ absurd (ground (arith, e, off))
  | inr on ↦ (on, ground (arith, e, on))
]

deliver-passes :
    (side : Bool) (frame : Frame) (s t : Shared)
    → deliver side s ≡ passes_on frame t
    → (rest : List Frame) × (s.inbox side ≡ frame ∷ rest)
      × (record s { inbox = set_inbox side rest s.inbox } ≡ t)
unfolding deliver
deliver-passes side frame s t e = elim (List-cases (s.inbox side)) [
  | inl empty ↦ absurd (ground (arith, e, empty))
  | inr (f, rest, q) ↦ (rest, ground (arith, e, q), ground (arith, e, q))
]

deliver-ends :
    (side : Bool) (s : Shared) → deliver side s ≡ ends → (s.inbox side ≡ []) × (s.closed ≡ true)
unfolding deliver
deliver-ends side s e = elim (List-cases (s.inbox side)) [
  | inl empty ↦ (empty, ground (arith, e, empty))
  | inr (f, rest, q) ↦ absurd (ground (arith, e, q))
]

Reachable-SideOk : {s : System} (me : Bool) → Reachable s → SideOk me s
unfolding new_pair close
Reachable-SideOk me start = record { whole = refl; last = λ h. absurd (ground (arith, h)) }
Reachable-SideOk me (sends {s} side parts shared r e) =
    let (on, eq) = send_parts-open side parts s.shared shared e in
    subst
      (λ t. SideOk me (record s {
        shared = t;
        accepted = set_inbox (not side) (s.accepted (not side) ++ join_parts parts ∷ []) s.accepted;
      }))
      eq (sends-SideOk me side (join_parts parts) s on (Reachable-SideOk me r))
Reachable-SideOk me (closes {s} r) =
    let ok = Reachable-SideOk me r in record { whole = ok.whole; last = λ h. ((ok.last h).0, refl) }
Reachable-SideOk me (delivers {s} side frame shared r on e) =
    let (rest, q, eq) = deliver-passes side frame s.shared shared e in
    subst
      (λ t.
        SideOk me
          (record s { shared = t; passed = set_inbox side (s.passed side ++ frame ∷ []) s.passed }))
      eq (delivers-SideOk me side frame rest s on q (Reachable-SideOk me r))
Reachable-SideOk me (finishes {s} side r on e) =
    let (empty, off) = deliver-ends side s.shared e in
    finishes-SideOk me side s empty off (Reachable-SideOk me r)

-- A side of a loopback pair is passed the frames that were accepted for it, in order and each
-- once, and those that wait are the rest of them; once it is told of the close it has been
-- passed all of them, and none is accepted after.
pub Reachable-passes :
    {s : System} (side : Bool)
    → Reachable s
    → (s.passed side ++ s.shared.inbox side ≡ s.accepted side)
      × ((s.ended side ≡ false) ⊎ ((s.passed side ≡ s.accepted side) × (s.shared.closed ≡ true)))
Reachable-passes {s} side r =
    let ok = Reachable-SideOk side r in
    (
      ok.whole,
      elim (Bool-cases (s.ended side)) [
        | inl told ↦
            let (empty, off) = ok.last told in
            inr (
              sym (append-nil (s.passed side))
                  ∙ ap (λ fs. s.passed side ++ fs) (sym empty)
                  ∙ ok.whole,
              off,
            )
        | inr on ↦ inl on
      ],
    )
