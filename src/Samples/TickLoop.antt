-- ===== src/Samples/TickLoop.antt =====
-- Jobs of a TickLoop, for src/tick_loop.cpp.
use sub0pipeline.Prelude.{
  ℕ, ◌+◌, ◌*◌, ◌≤◌, ◌≡◌, refl, false, List, [], ◌∷◌, arith, leb, ◌==◌, if◌then◌else◌,
}
use sub0pipeline.TickLoop.{Ticking, Observation, Call, add, pass, run}
use sub0pipeline.TickLoop.Gaps.{calls_of, Apart, run-Apart, run_first}

-- A pass that starts at `now`; a call of job 0 takes `slow`.
abbrev pass_at : ℕ → ℕ → Observation
pass_at now slow = record {
  stop_before = false;
  now = now;
  reaches = λ i. if i == 0 then now else now + slow;
  stop_after = false;
  over = now + slow;
}

abbrev call : ℕ → ℕ → Call
call entered stamp = record { entered = entered; stamp = stamp }

-- Two jobs, every 2 and every 5 milliseconds.
abbrev two_jobs : List Ticking
two_jobs = add 5 (add 2 [])

abbrev three_passes : List Observation
three_passes = pass_at 3000000 0 ∷ pass_at 4000000 0 ∷ pass_at 6500000 400000 ∷ []

-- The second job has its first call on the third pass, after the first job.
three_passes-run :
    run three_passes two_jobs
    ≡ (0, call 3000000 3000000) ∷ (0, call 6500000 6500000) ∷ (1, call 6900000 6500000) ∷ []
unfolding run pass add
three_passes-run = refl

-- With an interval of 100 ms and a slow job before it, a job is called at 190 ms and again at 200 ms.
close_calls :
    calls_of 1 (run (pass_at 100000000 90000000 ∷ pass_at 200000000 0 ∷ []) (add 100 (add 100 [])))
    ≡ call 190000000 100000000 ∷ call 200000000 200000000 ∷ []
unfolding run pass add
close_calls = refl

reached :
    (i now slow : ℕ)
    → (now ≤ (pass_at now slow).reaches i) × ((pass_at now slow).reaches i ≤ now + slow)
reached i now slow = (ground arith, ground arith)

run-Apart_example : Apart 2000000 0 0 (calls_of 0 (run three_passes two_jobs))
unfolding add
run-Apart_example =
    run-Apart three_passes two_jobs 0 0 0 (record { interval = 2; last_run = 0 }) refl (omega arith)
      (omega arith)
      (
        omega arith,
        λ j. reached j 3000000 0,
        (omega arith, λ j. reached j 4000000 0, (omega arith, λ j. reached j 6500000 400000, tt)),
      )

run_first_example :
    calls_of 1 (run (pass_at 3000000 0 ∷ []) two_jobs)
    ≡ (if leb (5 * 1000000) 3000000 then call 3000000 3000000 ∷ [] else [])
unfolding add
run_first_example =
    run_first (pass_at 3000000 0) two_jobs 1 (record { interval = 5; last_run = 0 }) refl refl refl
