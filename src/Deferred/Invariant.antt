-- ===== src/Deferred/Invariant.antt =====
-- What every interleaving of the parties of a deferred job keeps.
use sub0pipeline.Prelude.{
  ℕ, ◌+◌, ◌≡◌, ◌⊎◌, Bool, true, false, ◌&&◌, Option, none, some, arith, if◌then◌else◌, ◌==◌,
}
use sub0pipeline.Types.{Expected, unexpected, PipelineError}
use sub0pipeline.Deferred.{
  Outcome, signalled, stopped, BodyPc, SignalPc, lost, releasing, dropped, StopPc, idle, FinishPc,
  waiting, locked, flagged, finished, Slot, reset, Step, body_check, body_arrive, signal_win,
  signal_lose, signal_store, signal_arrive, release_late, orphans_release, stop_win, stop_store,
  stop_arrive, finish_signalled, orphan_lock, orphan_skip, orphan_flag, orphan_add, Reach, start,
  later,
}

abbrev pub one_if : Bool → ℕ
one_if b = if b then 1 else 0

abbrev pub body_done : BodyPc → ℕ
body_done BodyPc.arrived = 1
body_done _ = 0

abbrev pub signal_done : SignalPc → ℕ
signal_done SignalPc.arrived = 1
signal_done _ = 0

abbrev pub stop_done : StopPc → ℕ
stop_done StopPc.arrived = 1
stop_done _ = 0

-- The signal decided the outcome.
abbrev pub signal_owns : SignalPc → Bool
signal_owns SignalPc.won = true
signal_owns SignalPc.stored = true
signal_owns SignalPc.arrived = true
signal_owns _ = false

-- The signal came after the stop.
abbrev pub signal_late : SignalPc → Bool
signal_late lost = true
signal_late releasing = true
signal_late dropped = true
signal_late _ = false

abbrev pub stop_owns : StopPc → Bool
stop_owns idle = false
stop_owns _ = true

-- `result` has been written by the party that owns the outcome.
abbrev pub written : SignalPc → StopPc → Bool
written SignalPc.stored st = true
written SignalPc.arrived st = true
written sg StopPc.stored = true
written sg StopPc.arrived = true
written sg _ = false

abbrev pub is_signalled : Outcome → Bool
is_signalled signalled = true
is_signalled _ = false

abbrev pub is_stopped : Outcome → Bool
is_stopped stopped = true
is_stopped _ = false

abbrev pub is_waiting : FinishPc → Bool
is_waiting waiting = true
is_waiting _ = false

abbrev pub is_finished : FinishPc → Bool
is_finished finished = true
is_finished _ = false

abbrev pub is_locked : FinishPc → Bool
is_locked locked = true
is_locked flagged = true
is_locked _ = false

-- What DeferredSlot::stop can answer.
abbrev pub IsStopResult : Expected (Unit {0}) → Type 0
IsStopResult r = (r ≡ unexpected PipelineError.timeout) ⊎ (r ≡ unexpected PipelineError.cancelled)

-- kOrphaned is set only from this point on.
abbrev pub may_orphan : FinishPc → Bool
may_orphan flagged = true
may_orphan finished = true
may_orphan _ = false

abbrev pub is_dropped : SignalPc → Bool
is_dropped dropped = true
is_dropped _ = false

abbrev pub has_released : SignalPc → Bool
has_released releasing = true
has_released dropped = true
has_released _ = false

abbrev pub is_some {ℓ} : {A : Type ℓ} → Option A → Bool
is_some none = false
is_some (some a) = true

pub record Inv (s : Slot) : Type 0 where
  pub arrivals : s.parties + body_done s.body + signal_done s.signal + stop_done s.stop ≡ 2
  pub signal_first : is_signalled s.outcome ≡ signal_owns s.signal
  pub stop_first : is_stopped s.outcome ≡ stop_owns s.stop
  pub late : signal_late s.signal ≡ true → s.outcome ≡ stopped
  pub last : is_waiting s.finish ≡ (if s.parties == 0 then false else true)
  pub has_result : written s.signal s.stop ≡ is_some s.result
  pub flag : s.released ≡ has_released s.signal
  pub orphan : s.orphaned ≡ true → (may_orphan s.finish ≡ true) × (s.outcome ≡ stopped)
  pub flagging : s.finish ≡ flagged → s.orphaned ≡ true
  pub unflagged : s.signal ≡ releasing → s.orphaned ≡ true
  pub locking : is_locked s.finish ≡ true → s.outcome ≡ stopped
  pub entered : s.finishes ≡ (if is_waiting s.finish then 0 else 1)
  pub stop_result :
      (r : Expected (Unit {0})) → s.outcome ≡ stopped → s.result ≡ some r → IsStopResult r
  pub ledger :
      s.orphan_count + one_if (is_dropped s.signal && s.orphaned)
      ≡ one_if (is_finished s.finish && s.orphaned)

Inv-reset : Inv reset
Inv-reset = ground arith

pub Step-Inv : {s t : Slot} → Step s t → Inv s → Inv t
Step-Inv (body_check e) inv = ground arith
Step-Inv (body_arrive e) inv = ground arith
Step-Inv (signal_win e u) inv = ground arith
Step-Inv (signal_lose e u) inv = ground arith
Step-Inv (signal_store v x e) inv = ground arith
Step-Inv (signal_arrive e) inv = ground arith
Step-Inv (release_late e) inv = ground arith
Step-Inv (orphans_release e free) inv = ground arith
Step-Inv (stop_win e u) inv = ground arith
Step-Inv (stop_store x e) inv = ground arith
Step-Inv (stop_arrive e) inv = ground arith
Step-Inv (finish_signalled e u) inv = ground arith
Step-Inv (orphan_lock e u) inv = ground arith
Step-Inv (orphan_skip e u) inv = ground arith
Step-Inv (orphan_flag e u) inv = ground arith
Step-Inv (orphan_add e) inv = ground arith

pub Reach-Inv : {s : Slot} → Reach s → Inv s
Reach-Inv start = Inv-reset
Reach-Inv (later r st) = Step-Inv st (Reach-Inv r)
