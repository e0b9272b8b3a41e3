-- ===== src/Run/Threaded/Termination.antt =====
-- A threaded run ends: each step leaves less to do.
use sub0pipeline.Prelude.{
  ℕ, suc, ◌+◌, ◌≤◌, ◌<◌, ◌≡◌, ◌≢◌, ◌⊎◌, ap, inl, inr, true, arith, update, total, total-update,
  total_at, total_ext,
}
use sub0pipeline.Graph.{Graph}
use sub0pipeline.Graph.Build.{WellFormed}
use sub0pipeline.Run.Completion.{NoOnDemand}
use sub0pipeline.Run.Threaded.{Pc, Shared, Move, awaiting_all, over}
use sub0pipeline.Run.Threaded.Schedule.{
  System, Step, Steps, no_step, one_more, pick, wait_all, start_run, Reach,
}
use sub0pipeline.Run.Threaded.Claims.{is_main}
use sub0pipeline.Run.Threaded.Entries.{changed, Move-changed}
use sub0pipeline.Run.Threaded.Measure.{
  status_cost, queue_cost, skips_cost, left, submitted, Move-left, Move-submitted,
}
use sub0pipeline.Run.Threaded.Reachable.{Reach-Inv, Steps-Reach}
use sub0pipeline.Run.Threaded.Accounts.{Reach-Books}
use sub0pipeline.Run.Threaded.Deadlock.{Reach-moves}

-- At most this many steps can follow.
abbrev pub remaining : Graph → System → ℕ
remaining g t =
    total (suc g.size) (λ q. left g q (t.pc q))
    + skips_cost g t.shared.run.skipped_jobs
    + total g.size (λ j. status_cost g j (t.shared.run.status j))
    + total g.size (λ j. queue_cost g j (t.shared.accepted j))

-- A sum over the jobs, before and after one of them, or none, has changed.
sum_moves :
    {A : Type 0} (n x : ℕ) (w : ℕ → A → ℕ) (f f' : ℕ → A)
    → ((j : ℕ) → j ≢ x → f j ≡ f' j)
    → (x < n) ⊎ ((j : ℕ) → f j ≡ f' j)
    → total n (λ j. w j (f j)) + w x (f' x) ≡ total n (λ j. w j (f' j)) + w x (f x)
sum_moves n x w f f' others (inl lt) =
    total_at n x (λ j. w j (f j)) (λ j. w j (f' j)) lt (λ j l ne. ap (w j) (others j ne))
sum_moves n x w f f' others (inr same) =
    let sums = total_ext n (λ j. w j (f j)) (λ j. w j (f' j)) (λ j l. ap (w j) (same j)) in
    omega (arith, sums, ap (w x) (same x))

pick-remaining :
    (g : Graph) (t : System) (i : ℕ)
    → WellFormed g
    → NoOnDemand g
    → Reach g t
    → (le : i ≤ g.size) {m : Shared} {p : Pc} (mv : Move g i t.shared (t.pc i) m p)
    → remaining g (record { shared = m; pc = update t.pc i p }) < remaining g t
pick-remaining g t i wf plain r le {m} {p} mv =
    let inv = Reach-Inv g t wf r in
    let named = (Reach-Books g t wf plain r).named i le in
    let (others, where_at) = Move-changed mv le (on_main inv.main) named in
    let (apart, queue_at) = Move-submitted mv le (on_main inv.main) named in
    let statuses =
      sum_moves g.size (changed mv) (status_cost g) t.shared.run.status m.run.status others
        where_at in
    let queues =
      sum_moves g.size (submitted mv) (queue_cost g) t.shared.accepted m.accepted apart queue_at in
    let threads = total-update (suc g.size) i (left g) t.pc p (omega arith) in
    omega (arith, Move-left mv, statuses, queues, threads)
  where
    on_main : is_main (t.pc g.size) ≡ true → i ≡ g.size → is_main (t.pc i) ≡ true
    on_main main e = ground (arith, main, e)

over-remaining :
    (g : Graph) (t : System)
    → t.pc g.size ≡ awaiting_all
    → remaining g (record t { pc = update t.pc g.size over }) < remaining g t
over-remaining g t at =
    let threads = total-update (suc g.size) g.size (left g) t.pc over (omega arith) in
    let before : left g g.size (t.pc g.size) ≡ 1 = ground (arith, at) in
    omega (arith, threads, before)

Step-remaining :
    (g : Graph) (s t : System)
    → WellFormed g
    → NoOnDemand g
    → Reach g s
    → Step g s t
    → remaining g t < remaining g s
Step-remaining g s _ wf plain r (pick i le mv) = pick-remaining g s i wf plain r le mv
Step-remaining g s _ wf plain r (wait_all at quiet) = over-remaining g s at

Steps-remaining :
    (g : Graph) (n : ℕ) (t : System)
    → WellFormed g
    → NoOnDemand g
    → Steps g n t
    → n + remaining g t ≤ remaining g (start_run g)
Steps-remaining g _ _ wf plain no_step = omega arith
Steps-remaining g _ _ wf plain (one_more {n} {s} {t} steps step) =
    let before = Steps-remaining g n s wf plain steps in
    let less = Step-remaining g s t wf plain (Steps-Reach g n s steps) step in
    omega (arith, before, less)

-- The longest threaded run of a graph has at most this many steps.
abbrev pub step_limit : Graph → ℕ
step_limit g = remaining g (start_run g)

-- A threaded run of a well-formed graph without on-demand jobs takes no more steps than a
-- number that depends on the graph only, and until run() has returned some thread can take a
-- step: the run ends, whatever the order of the steps, the results of the jobs and the rejected
-- dispatches.
pub Steps-ends :
    (g : Graph) (n : ℕ) (t : System)
    → WellFormed g
    → NoOnDemand g
    → Steps g n t
    → (n ≤ step_limit g) × ((t.pc g.size ≡ over) ⊎ ((t' : System) × Step g t t'))
Steps-ends g n t wf plain steps = (
  omega (arith, Steps-remaining g n t wf plain steps),
  Reach-moves g t wf plain (Steps-Reach g n t steps),
)
