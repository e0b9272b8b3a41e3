-- ===== src/Deferred/Delivery.antt =====
-- A deferred job finishes once, with the result of the party that came first, and its orphan is
-- released exactly once.
use sub0pipeline.Prelude.{
  ◌≤◌, ◌<◌, ◌≡◌, refl, ◌≢◌, ◌⊎◌, inl, inr, true, none, some, arith, Option-cases,
}
use sub0pipeline.Types.{Expected}
use sub0pipeline.Deferred.{
  undecided, stopped, BodyPc, SignalPc, releasing, dropped, StopPc, FinishPc, waiting, begun,
  locked, flagged, finished, Slot, Step, orphan_add, Reach,
}
use sub0pipeline.Deferred.Invariant.{Inv, Reach-Inv, is_some, IsStopResult}

-- The finish of the job has begun.
pub record Finishing (s : Slot) : Type 0 where
  pub once : s.finishes ≡ 1
  pub body_arrived : s.body ≡ BodyPc.arrived
  pub decided : s.outcome ≢ undecided
  pub has_result : (r : Expected (Unit {0})) × (s.result ≡ some r)

-- In every interleaving a deferred job finishes at most once, after its body has arrived and
-- its result is stored.
pub Reach-Finishing : {s : Slot} → Reach s → (s.finishes ≤ 1) × ((s.finish ≢ waiting) → Finishing s)
Reach-Finishing {s} r =
    let inv = Reach-Inv r in
    (
      ground (arith, inv.entered),
      λ begun'. record {
        once = ground (arith, inv.entered);
        body_arrived = ground (arith, inv.arrivals, inv.last, inv.signal_first, inv.stop_first);
        decided = ground (arith, inv.arrivals, inv.last, inv.signal_first, inv.stop_first);
        has_result = found (Option-cases s.result) (
            ground
              (arith, inv.arrivals, inv.last, inv.signal_first, inv.stop_first, inv.has_result));
      },
    )
  where
    found :
        (s.result ≡ none) ⊎ ((v : Expected (Unit {0})) × (s.result ≡ some v))
        → is_some s.result ≡ true
        → (v : Expected (Unit {0})) × (s.result ≡ some v)
    found (inl gone) e = ground (arith, gone, e)
    found (inr there) e = there

-- A deferred job that a stop decided has kTimeout or kCancelled as its result, and its
-- Completion delivers nothing.
pub Reach-stopped :
    {s : Slot} (v : Expected (Unit {0}))
    → Reach s
    → s.outcome ≡ stopped
    → s.result ≡ some v
    → IsStopResult v
      × (s.signal ≢ SignalPc.won)
      × (s.signal ≢ SignalPc.stored)
      × (s.signal ≢ SignalPc.arrived)
Reach-stopped {s} v r e given =
    let inv = Reach-Inv r in
    (
      inv.stop_result v e given,
      ground (arith, e, inv.signal_first),
      ground (arith, e, inv.signal_first),
      ground (arith, e, inv.signal_first),
    )

-- A Completion that has to release an orphan finds the count above zero, or the finishing
-- thread, in its critical section, has a step.
Reach-release :
    {s : Slot}
    → Reach s
    → s.signal ≡ releasing
    → ((s.finish ≡ finished) × (0 < s.orphan_count))
      ⊎ ((s.finish ≡ flagged) × (t : Slot) × Step s t)
Reach-release {s} r e = at (Reach-Inv r) s.finish refl
  where
    at :
        Inv s
        → (f : FinishPc) → s.finish ≡ f
        → ((s.finish ≡ finished) × (0 < s.orphan_count))
          ⊎ ((s.finish ≡ flagged) × (t : Slot) × Step s t)
    at inv flagged h = inr (h, _, orphan_add h)
    at inv finished h = inl (h, ground (arith, inv.ledger, inv.unflagged, e, h))
    at inv waiting h = absurd (ground (arith, inv.orphan, inv.unflagged, e, h))
    at inv begun h = absurd (ground (arith, inv.orphan, inv.unflagged, e, h))
    at inv locked h = absurd (ground (arith, inv.orphan, inv.unflagged, e, h))

-- When the body has arrived, the Completion is done with and no party is inside its steps, the
-- job has finished exactly once and no orphan is left.
pub Reach-settles :
    {s : Slot}
    → Reach s
    → s.body ≡ BodyPc.arrived
    → (s.signal ≡ SignalPc.arrived) ⊎ (s.signal ≡ dropped)
    → s.stop ≢ StopPc.won
    → s.stop ≢ StopPc.stored
    → s.finish ≢ begun
    → s.finish ≢ locked
    → s.finish ≢ flagged
    → (s.finish ≡ finished) × (s.finishes ≡ 1) × (s.orphan_count ≡ 0)
Reach-settles {s} r body signal w st b l f =
    let inv = Reach-Inv r in (ground (arith, inv), ground (arith, inv), ground (arith, inv))
