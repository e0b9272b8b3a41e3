-- ===== src/Samples/Deferred.antt =====
-- A deferred job whose timeout fires first, and whose Completion is dropped late.
use sub0pipeline.Prelude.{◌≤◌, ◌≡◌, refl, ◌≢◌, inr, true, arith}
use sub0pipeline.Types.{unexpected, PipelineError}
use sub0pipeline.Deferred.{
  SignalPc, waiting, begun, locked, flagged, finished, Slot, body_check, body_arrive, signal_lose,
  release_late, orphans_release, stop_win, stop_store, stop_arrive, orphan_lock, orphan_flag,
  orphan_add, Reach, start, later,
}
use sub0pipeline.Deferred.Invariant.{IsStopResult}
use sub0pipeline.Deferred.Delivery.{Finishing, Reach-Finishing, Reach-stopped, Reach-settles}

abbrev Reached : Type 0
Reached = (s : Slot) × Reach s

-- The body returns, the timer wins, and the last party has begun to finish the job.
abbrev ending : Reached
ending = (
  _,
  later
      (later
        (later (later (later start (body_check refl)) (stop_win refl refl)) (stop_store true refl))
        (stop_arrive refl))
      (body_arrive refl),
)

-- The finish has counted the Completion as an orphan, and the Completion has seen it.
abbrev orphaned : Reached
orphaned = (
  _,
  later
      (later
        (later (later (later ending.1 (orphan_lock refl refl)) (orphan_flag refl refl))
          (orphan_add refl))
        (signal_lose refl refl))
      (release_late refl),
)

is_over :
    ((finished ≡ waiting → ⊥)
      × (finished ≡ begun → ⊥)
      × (finished ≡ locked → ⊥)
      × (finished ≡ flagged → ⊥))
is_over =
    (λ e. ground (arith, e), λ e. ground (arith, e), λ e. ground (arith, e), λ e. ground (arith, e))

abbrev settled : Reached
settled = (_, later orphaned.1 (orphans_release refl is_over))

Reach-Finishing_example :
    (ending.0.finishes ≤ 1) × ((ending.0.finish ≢ waiting) → Finishing ending.0)
Reach-Finishing_example = Reach-Finishing {s = ending.0} ending.1

Reach-stopped_example :
    IsStopResult (unexpected PipelineError.timeout)
    × (orphaned.0.signal ≢ SignalPc.won)
    × (orphaned.0.signal ≢ SignalPc.stored)
    × (orphaned.0.signal ≢ SignalPc.arrived)
Reach-stopped_example =
    Reach-stopped {s = orphaned.0} (unexpected PipelineError.timeout) orphaned.1 refl refl

Reach-settles_example :
    (settled.0.finish ≡ finished) × (settled.0.finishes ≡ 1) × (settled.0.orphan_count ≡ 0)
Reach-settles_example =
    Reach-settles {s = settled.0} settled.1 refl (inr refl) (ground arith) (ground arith)
      (ground arith) (ground arith) (ground arith)
