-- ===== src/Deferred.antt =====
-- detail::DeferredSlot, DeferredOrphans and Completion of src/sub0pipeline.cpp: one run of a deferred
-- job as the interleaving of the body's thread, the Completion's owner, the stop source and the thread
-- that finishes the job. Each step is one atomic access of the source, or one critical section.
pub mod Invariant
pub mod Delivery
use sub0pipeline.Prelude.{
  ℕ, ◌+◌, ◌-◌, ◌≡◌, Bool, true, false, Option, none, some, if◌then◌else◌, ◌==◌,
}
use sub0pipeline.Types.{Expected, value, unexpected, PipelineError}

-- DeferredSlot::outcome
pub data Outcome : Type 0 where
  undecided signalled stopped : Outcome

-- startDeferred, from the call of slot.start() on.
pub data BodyPc : Type 0 where
  in_start : BodyPc
  checked : BodyPc  -- the load of `outcome` after start() has returned
  arrived : BodyPc  -- its parties.fetch_sub

-- DeferredSlot::signal, which a Completion calls once.
pub data SignalPc : Type 0 where
  held : SignalPc  -- the Completion is neither completed nor destroyed
  won : SignalPc  -- the exchange of `outcome` succeeded
  stored : SignalPc  -- `result` is written
  arrived : SignalPc
  lost : SignalPc  -- the exchange failed: releaseLate() is next
  releasing : SignalPc  -- kOrphaned was set: orphans->release() is next
  dropped : SignalPc

-- DeferredSlot::stop
pub data StopPc : Type 0 where
  idle : StopPc
  won : StopPc
  stored : StopPc
  arrived : StopPc

-- finishDeferred, by the party that arrives last.
pub data FinishPc : Type 0 where
  waiting : FinishPc
  begun : FinishPc
  locked : FinishPc  -- inside orphanIfHeld, with orphans->mtx held
  flagged : FinishPc  -- kOrphaned is set, the count not yet raised
  finished : FinishPc

pub record Slot : Type 0 where
  pub outcome : Outcome
  pub parties : ℕ
  pub released : Bool  -- kReleased of handleFlags
  pub orphaned : Bool  -- kOrphaned of handleFlags
  pub result : Option (Expected (Unit {0}))
  pub awaiting : Bool  -- the job's status was set to kAwaiting
  pub orphan_count : ℕ  -- this slot's share of DeferredOrphans::count
  pub body : BodyPc
  pub signal : SignalPc
  pub stop : StopPc
  pub finish : FinishPc
  pub finishes : ℕ  -- how often finishDeferred was entered

-- The reset of the slot in startDeferred.
abbrev pub reset : Slot
reset = record {
  outcome = undecided;
  parties = 2;
  released = false;
  orphaned = false;
  result = none;
  awaiting = false;
  orphan_count = 0;
  body = in_start;
  signal = held;
  stop = idle;
  finish = waiting;
  finishes = 0;
}

-- The last party to arrive finishes the job.
abbrev pub finish_if_last : Slot → FinishPc
finish_if_last s = if s.parties == 1 then begun else s.finish

-- An expiry that came first owns the result.
abbrev pub signal_result : Bool → Expected (Unit {0}) → Expected (Unit {0})
signal_result expired v = if expired then unexpected PipelineError.timeout else v

abbrev pub stop_result : Bool → Expected (Unit {0})
stop_result expired =
    if expired then unexpected PipelineError.timeout else unexpected PipelineError.cancelled

abbrev pub is_undecided : Outcome → Bool
is_undecided undecided = true
is_undecided _ = false

pub data Step (s : Slot) : Slot → Type 0 where
  body_check :
      s.body ≡ in_start → Step s (record s { body = checked; awaiting = is_undecided s.outcome })
  body_arrive :
      s.body ≡ checked
      → Step s (record s {
        body = BodyPc.arrived;
        parties = s.parties - 1;
        finish = finish_if_last s;
        finishes = s.finishes + (if s.parties == 1 then 1 else 0);
      })
  signal_win :
      s.signal ≡ held
      → s.outcome ≡ undecided
      → Step s (record s { signal = SignalPc.won; outcome = signalled })
  signal_lose : s.signal ≡ held → s.outcome ≡ stopped → Step s (record s { signal = lost })
  signal_store :
      (v : Expected (Unit {0})) (expired : Bool)
      → s.signal ≡ SignalPc.won
      → Step s (record s { signal = SignalPc.stored; result = some (signal_result expired v) })
  signal_arrive :
      s.signal ≡ SignalPc.stored
      → Step s (record s {
        signal = SignalPc.arrived;
        parties = s.parties - 1;
        finish = finish_if_last s;
        finishes = s.finishes + (if s.parties == 1 then 1 else 0);
      })
  release_late :
      s.signal ≡ lost
      → Step s (record s { released = true; signal = if s.orphaned then releasing else dropped })
  orphans_release :
      s.signal ≡ releasing
      → ((s.finish ≡ waiting → ⊥)
          × (s.finish ≡ begun → ⊥)
          × (s.finish ≡ locked → ⊥)
          × (s.finish ≡ flagged → ⊥))
      → Step s (record s { signal = dropped; orphan_count = s.orphan_count - 1 })
  stop_win :
      s.stop ≡ idle
      → s.outcome ≡ undecided
      → Step s (record s { stop = StopPc.won; outcome = stopped })
  stop_store :
      (expired : Bool)
      → s.stop ≡ StopPc.won
      → Step s (record s { stop = StopPc.stored; result = some (stop_result expired) })
  stop_arrive :
      s.stop ≡ StopPc.stored
      → Step s (record s {
        stop = StopPc.arrived;
        parties = s.parties - 1;
        finish = finish_if_last s;
        finishes = s.finishes + (if s.parties == 1 then 1 else 0);
      })
  finish_signalled :
      s.finish ≡ begun → s.outcome ≡ signalled → Step s (record s { finish = finished })
  orphan_lock : s.finish ≡ begun → s.outcome ≡ stopped → Step s (record s { finish = locked })
  orphan_skip : s.finish ≡ locked → s.released ≡ true → Step s (record s { finish = finished })
  orphan_flag :
      s.finish ≡ locked
      → s.released ≡ false
      → Step s (record s { finish = flagged; orphaned = true })
  orphan_add :
      s.finish ≡ flagged
      → Step s (record s { finish = finished; orphan_count = s.orphan_count + 1 })

pub data Reach : Slot → Type 0 where
  start : Reach reset
  later : {s t : Slot} → Reach s → Step s t → Reach t
