-- ===== src/Samples/Threaded.antt =====
-- Threaded runs of the diamond, on schedules that give each thread its turns in order.
use sub0pipeline.Prelude.{
  ℕ, zero, suc, ◌+◌, ◌≤◌, ◌<◌, ◌≡◌, ◌⊎◌, inl, refl, true, false, some, ◌==◌, List, [], ◌∷◌, arith,
}
use sub0pipeline.Types.{JobStatus, PipelineError, value, unexpected, status_of}
use sub0pipeline.Graph.Degrees.{Edge}
use sub0pipeline.Run.{run_result}
use sub0pipeline.Run.Base.{terminal}
use sub0pipeline.Run.Log.{starts, finishes, tolerated}
use sub0pipeline.Run.Threaded.{over}
use sub0pipeline.Run.Threaded.Schedule.{System, Step, Reach, no_step, start_run, Quiet}
use sub0pipeline.Run.Threaded.Claims.{active}
use sub0pipeline.Run.Threaded.Guarantees.{AtRest, Reach-starts, Reach-finishes, Reach-result}
use sub0pipeline.Run.Threaded.Chances.{World, Driven, drive}
use sub0pipeline.Run.Threaded.Termination.{step_limit, Steps-ends}
use sub0pipeline.Run.Threaded.Reachable.{Steps-Reach}
use sub0pipeline.Samples.Graphs.{diamond, diamond-WellFormed, validate-diamond}
use sub0pipeline.Samples.Runs.{failing, diamond-NoOnDemand}
use sub0pipeline.Validate.Soundness.{validate-Acyclic}

-- Every thread takes `n` turns.
abbrev rounds : ℕ → List ℕ
rounds zero = []
rounds (suc n) = 0 ∷ 1 ∷ 2 ∷ 3 ∷ 4 ∷ rounds n

abbrev after_rounds : World → ℕ → Driven diamond.0
after_rounds w n =
    drive w (rounds n) (record { count = 0; system = start_run diamond.0; steps = no_step })

-- Job `bad` answers kJobFailed, the others succeed, and the dispatch of job `lost` is rejected.
abbrev world : (bad lost : ℕ) → World
world bad lost = record { env = failing bad; refuses = λ s. s == lost }

-- After 45 rounds the run has called job 3 once, and waits in waitAll() with nothing to wait for.
abbrev rested : Driven diamond.0
rested = after_rounds (world 4 4) 45

-- The required job 1 fails: job 3 is skipped.
abbrev broken : Driven diamond.0
broken = after_rounds (world 1 4) 45

-- The dispatch of job 2 is rejected.
abbrev unsent : Driven diamond.0
unsent = after_rounds (world 4 2) 45

rested-Reach : Reach diamond.0 rested.system
rested-Reach = Steps-Reach diamond.0 rested.count rested.system rested.steps

diamond-size : diamond.0.size ≡ 4
unfolding diamond
diamond-size = refl

rested-Quiet : Quiet diamond.0 rested.system
unfolding drive diamond start_run
rested-Quiet zero lt = (refl, refl)
rested-Quiet (suc zero) lt = (refl, refl)
rested-Quiet (suc (suc zero)) lt = (refl, refl)
rested-Quiet (suc (suc (suc zero))) lt = (refl, refl)
rested-Quiet (suc (suc (suc (suc i)))) lt = absurd (omega (arith, lt, diamond-size))

rested-AtRest : AtRest diamond.0 rested.system
unfolding drive diamond start_run
rested-AtRest = (rested-Quiet, inl refl)

rested_done :
    (rested.system.shared.run.status 3 ≡ JobStatus.done)
    × (starts 3 rested.system.shared.run.events ≡ 1)
unfolding drive diamond start_run
rested_done = (refl, refl)

-- After 18 rounds job 1 runs.
halfway_running : (after_rounds (world 4 4) 18).system.shared.run.status 1 ≡ JobStatus.running
unfolding drive diamond start_run
halfway_running = refl

Reach-starts_example :
    (rested.system.shared.accepted 3 + active (rested.system.pc 3) ≤ 1)
    × (starts 3 rested.system.shared.run.events ≤ 1)
    × (0 < starts 3 rested.system.shared.run.events
        → (p : ℕ) → p < diamond.0.size
        → Edge diamond.0 p 3
        → tolerated (diamond.0.node p).optional (rested.system.shared.run.status p) ≡ true)
Reach-starts_example =
    Reach-starts diamond.0 rested.system diamond-WellFormed rested-Reach 3
      (omega (arith, diamond-size))

Reach-finishes_example :
    ((j : ℕ)
      → j < diamond.0.size
      → (terminal (rested.system.shared.run.status j) ≡ true)
        × (finishes j rested.system.shared.run.events ≡ 1))
    × (rested.system.shared.run.completed_count ≡ diamond.0.size)
    × (rested.system.shared.run.skipped_jobs ≡ [])
    × (run_result rested.system.shared.run ≡ value tt
        → (j : ℕ) → j < diamond.0.size
        → tolerated (diamond.0.node j).optional (rested.system.shared.run.status j) ≡ true)
Reach-finishes_example =
    Reach-finishes diamond.0 rested.system diamond-WellFormed diamond-NoOnDemand
      (validate-Acyclic diamond.0 diamond-WellFormed validate-diamond) rested-Reach rested-AtRest

Steps-ends_example :
    ((after_rounds (world 4 4) 18).count ≤ step_limit diamond.0)
    × (((after_rounds (world 4 4) 18).system.pc diamond.0.size ≡ over)
        ⊎ ((t' : System) × Step diamond.0 (after_rounds (world 4 4) 18).system t'))
Steps-ends_example =
    Steps-ends diamond.0 (after_rounds (world 4 4) 18).count (after_rounds (world 4 4) 18).system
      diamond-WellFormed diamond-NoOnDemand (after_rounds (world 4 4) 18).steps

broken_ended :
    (run_result broken.system.shared.run ≡ unexpected PipelineError.job_failed)
    × (broken.system.shared.run.status 3 ≡ JobStatus.skipped)
    × (broken.system.shared.run.completed_count ≡ 4)
unfolding drive diamond start_run run_result
broken_ended = (refl, refl, refl)

unsent_ended :
    (run_result unsent.system.shared.run ≡ unexpected PipelineError.job_failed)
    × (unsent.system.shared.run.status 2 ≡ JobStatus.failed)
    × (starts 2 unsent.system.shared.run.events ≡ 0)
    × (unsent.system.shared.run.completed_count ≡ 4)
unfolding drive diamond start_run run_result
unsent_ended = (refl, refl, refl, refl)

Reach-result_example :
    (x : ℕ) × (x < diamond.0.size)
    × (broken.system.shared.run.fatal ≡ some (PipelineError.job_failed, x))
    × (broken.system.shared.run.status x ≡ status_of (unexpected PipelineError.job_failed))
    × ((tolerated (diamond.0.node x).optional (broken.system.shared.run.status x) ≡ false)
        ⊎ ((PipelineError.job_failed ≡ PipelineError.job_failed)
            × (starts x broken.system.shared.run.events ≡ 0)))
Reach-result_example =
    Reach-result diamond.0 broken.system PipelineError.job_failed diamond-WellFormed
      diamond-NoOnDemand (Steps-Reach diamond.0 broken.count broken.system broken.steps)
      (broken_ended.0)
