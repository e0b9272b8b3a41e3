-- ===== src/Run/Threaded/Guarantees.antt =====
-- What a threaded run promises: the order in which it calls jobs, what has happened when run()
-- returns, and that it never gets stuck.
use sub0pipeline.Prelude.{
  ℕ, suc, ◌+◌, ◌≤◌, ◌<◌, ◌≡◌, ◌⊎◌, refl, inl, inr, true, false, [], arith, count, total, total_one,
  total_none, total_pos, le-total, Bool-cases, Option-cases, some, dec_lt,
}
use sub0pipeline.Types.{unexpected, status_of, PipelineError, JobStatus, value}
use sub0pipeline.Graph.{Graph, Node}
use sub0pipeline.Graph.Degrees.{Edge}
use sub0pipeline.Graph.Build.{WellFormed}
use sub0pipeline.Graph.Ranks.{Acyclic, descent}
use sub0pipeline.Run.{has_fatal_failure, is_pending, run_result}
use sub0pipeline.Run.Base.{terminal, one_if}
use sub0pipeline.Run.Log.{starts, finishes, tolerated}
use sub0pipeline.Run.Completion.{NoOnDemand}
use sub0pipeline.Run.Threaded.{Pc, idle, over, awaiting_all, within}
use sub0pipeline.Run.Threaded.Schedule.{System, Reach, Quiet}
use sub0pipeline.Run.Threaded.Claims.{Own, unpaid, owed, active, claims}
use sub0pipeline.Run.Threaded.Duties.{duty, drains, care}
use sub0pipeline.Run.Threaded.Books.{uncounted, rejects}
use sub0pipeline.Run.Threaded.Reachable.{Reach-Inv, Reach-Ends}
use sub0pipeline.Run.Threaded.Accounts.{Reach-Books}
use sub0pipeline.Run.Threaded.Reports.{unreported}
use sub0pipeline.Run.Threaded.Causes.{Reach-Reports}

-- A job that owes nothing to a successor has a result that lets the successor go on.
paid :
    (nd : Node) (st : JobStatus) (s full : ℕ) (q : Pc)
    → Own nd st q
    → 0 < full
    → unpaid s full (tolerated nd.optional st) q ≡ 0
    → tolerated nd.optional st ≡ true
paid nd st s full (within c k) own some_edge none =
    paid nd st s full k own some_edge (omega (arith, none))
paid nd st s full q own some_edge none = ground (arith, own, some_edge, none)

-- In every state that a threaded run of a well-formed graph reaches, in whatever order its
-- threads take their steps and whatever dispatches are rejected, the executor has at most one
-- callback of each job accepted or running, a job has been called at most once, and if it has
-- been called, each of its predecessors is over with a result that lets its successors go on.
pub Reach-starts :
    (g : Graph) (t : System)
    → WellFormed g
    → Reach g t
    → (i : ℕ) → i < g.size
    → (t.shared.accepted i + active (t.pc i) ≤ 1)
      × (starts i t.shared.run.events ≤ 1)
      × (0 < starts i t.shared.run.events
          → (p : ℕ) → p < g.size
          → Edge g p i
          → tolerated (g.node p).optional (t.shared.run.status p) ≡ true)
Reach-starts g t wf r i lt =
    let inv = Reach-Inv g t wf r in
    (
      omega (arith, inv.single i lt),
      omega (arith, inv.calls i lt),
      λ called p pl edge.
          let none = inv.freed i lt (omega (arith, called)) in
          paid (g.node p) (t.shared.run.status p) i (count i (g.node p).successors) (t.pc p)
            (inv.own p pl) edge (omega (arith, none, le-total g.size p (owed g i t) pl)),
    )

-- Every callback is over, and run() waits for nothing more.
abbrev pub AtRest : Graph → System → Type 0
AtRest g t = Quiet g t × ((t.pc g.size ≡ awaiting_all) ⊎ (t.pc g.size ≡ over))

module _ (g : Graph) (t : System) (wf : WellFormed g) (plain : NoOnDemand g) (r : Reach g t)
    (rest : AtRest g t) where
  -- No thread is anywhere but at its end.
  silent :
      (f : ℕ → Pc → ℕ)
      → ((q : ℕ) → (f q idle ≡ 0) × (f q awaiting_all ≡ 0) × (f q over ≡ 0))
      → total (suc g.size) (λ q. f q (t.pc q)) ≡ 0
  silent f ended = total_none (suc g.size) (λ q. f q (t.pc q)) (λ q l. at q (omega arith))
    where
      at : (q : ℕ) → q ≤ g.size → f q (t.pc q) ≡ 0
      at q le = elim (dec_lt q g.size) [
        | yes job ↦ ground (arith, (rest.0 q job).0, ended q)
        | no last ↦ let e : q ≡ g.size = omega arith in ground (arith, e, rest.1, ended q)
      ]

  careless : (j : ℕ) → j < g.size → care g j t ≡ 0
  careless j lt = ground (arith, silent (λ q. duty j) (λ q. (refl, refl, refl)), rest.0 j lt)

  undrained : t.shared.run.skipped_jobs ≡ []
  undrained =
      let ends = Reach-Ends g t wf plain r in
      ground (arith, ends.watched, ends.drained, silent (λ q. drains) (λ q. (refl, refl, refl)))

  abbrev Waiting : ℕ → Type 0
  Waiting j = terminal (t.shared.run.status j) ≡ false

  stuck-pending : (j : ℕ) → j < g.size → Waiting j → is_pending (t.shared.run.status j) ≡ true
  stuck-pending j lt now =
      let ends = Reach-Ends g t wf plain r in
      ground (arith, ends.served j lt, ends.runs j lt, careless j lt, (rest.0 j lt).0, now)

  owes-Waiting :
      (j p : ℕ)
      → j < g.size
      → p < g.size
      → is_pending (t.shared.run.status j) ≡ true
      → 0 < owed g j t p
      → Edge g p j × Waiting p
  owes-Waiting j p lt pl now owes =
      let ends = Reach-Ends g t wf plain r in
      let edge : Edge g p j = ground (arith, (rest.0 p pl).0, owes) in
      (
        edge,
        ground (
          arith,
          (rest.0 p pl).0,
          owes,
          ends.doomed j p lt pl edge now,
          careless j lt,
          undrained,
        ),
      )

  Waiting-pass : (j : ℕ) → j < g.size → Waiting j → (p : ℕ) × (p < g.size) × Edge g p j × Waiting p
  Waiting-pass j lt now =
      let ends = Reach-Ends g t wf plain r in
      let still = stuck-pending j lt now in
      let claimed = silent (λ q. claims j) (λ q. (refl, refl, refl)) in
      let due : 0 < total g.size (owed g j t) =
        ground
          (arith, ends.complete j lt still, ends.claimable j lt still, careless j lt, claimed) in
      let (p, pl, owes) = total_pos g.size (owed g j t) due in
      let (edge, waits) = owes-Waiting j p lt pl still owes in (p, pl, edge, waits)

  all_over : Acyclic g → (j : ℕ) → j < g.size → terminal (t.shared.run.status j) ≡ true
  all_over (rank, ranked) j lt = elim (Bool-cases (terminal (t.shared.run.status j))) [
    | inl done ↦ done
    | inr still ↦ absurd (descent g rank ranked Waiting Waiting-pass j lt still)
  ]

  all_tolerated :
      Acyclic g
      → has_fatal_failure t.shared.run ≡ false
      → (j : ℕ) → j < g.size
      → tolerated (g.node j).optional (t.shared.run.status j) ≡ true
  all_tolerated acyclic calm j lt =
      let books = Reach-Books g t wf plain r in
      let none = silent (λ q. rejects j) (λ q. (refl, refl, refl)) in
      ground (arith, books.recorded j lt, all_over acyclic j lt, calm, none, (rest.0 j lt).0)

-- When waitAll() may return in a threaded run of a well-formed acyclic graph without on-demand
-- jobs, every job is over and was reported to the observer as finished exactly once,
-- completedCount_ is the number of jobs and no skipped job is left to report; if run() then
-- returns a value, every job ended with a result that lets its successors go on.
pub Reach-finishes :
    (g : Graph) (t : System)
    → WellFormed g
    → NoOnDemand g
    → Acyclic g
    → Reach g t
    → AtRest g t
    → ((j : ℕ)
        → j < g.size
        → (terminal (t.shared.run.status j) ≡ true) × (finishes j t.shared.run.events ≡ 1))
      × (t.shared.run.completed_count ≡ g.size)
      × (t.shared.run.skipped_jobs ≡ [])
      × (run_result t.shared.run ≡ value tt
          → (j : ℕ) → j < g.size
          → tolerated (g.node j).optional (t.shared.run.status j) ≡ true)
unfolding run_result
Reach-finishes g t wf plain acyclic r rest =
    let over = all_over g t wf plain r rest acyclic in
    let books = Reach-Books g t wf plain r in
    let none_left = undrained g t wf plain r rest in
    let all_counted = silent g t wf plain r rest (λ q. uncounted) (λ q. (refl, refl, refl)) in
    let ones =
      total_one g.size (λ j. one_if (terminal (t.shared.run.status j)))
        (λ j l. ground (arith, over j l)) in
    let told = Reach-Reports g t wf plain r in
    let reported = λ (j : ℕ). silent g t wf plain r rest (unreported j) (λ q. (refl, refl, refl)) in
    (
      λ j l. (over j l, ground (arith, told.once j l, reported j, over j l, none_left)),
      ground (arith, books.counted, none_left, all_counted, ones),
      none_left,
      λ good. all_tolerated g t wf plain r rest acyclic (ground (arith, good)),
    )

-- When waitAll() may return in a threaded run of a well-formed acyclic graph without on-demand
-- jobs and run() returns an error, that error is recorded with a job of the graph whose status
-- is that of the error, and either the status is not one that lets its successors go on, or the
-- error is kJobFailed and the job was never called, because its dispatch was rejected.
pub Reach-result :
    (g : Graph) (t : System) (e : PipelineError)
    → WellFormed g
    → NoOnDemand g
    → Reach g t
    → run_result t.shared.run ≡ unexpected e
    → (x : ℕ) × (x < g.size)
      × (t.shared.run.fatal ≡ some (e, x))
      × (t.shared.run.status x ≡ status_of (unexpected e))
      × ((tolerated (g.node x).optional (t.shared.run.status x) ≡ false)
          ⊎ ((e ≡ PipelineError.job_failed) × (starts x t.shared.run.events ≡ 0)))
unfolding run_result
Reach-result g t e wf plain r answer = elim (Option-cases t.shared.run.fatal) [
  | inl none ↦ absurd (ground (arith, none, answer))
  | inr ((c, x), fatal) ↦
      let same : c ≡ e = ground (arith, fatal, answer) in
      let now : t.shared.run.fatal ≡ some (e, x) = ground (arith, fatal, same) in
      let (lt, was, why) = (Reach-Reports g t wf plain r).caused e x now in
      (
        x,
        lt,
        now,
        was,
        elim why [ inl spoilt ↦ inl spoilt | inr (named, unc) ↦ inr (named, omega (arith, unc.1)) ],
      )
]
