-- ===== src/Run/Threaded/Reachable.antt =====
-- What holds in every state that a threaded run reaches.
use sub0pipeline.Prelude.{
  ℕ, suc, ◌<◌, ◌≡◌, refl, arith, update, count, total, total_at, total_ext, total_none, inl, inr,
}
use sub0pipeline.Graph.{Graph}
use sub0pipeline.Graph.Degrees.{live_edges}
use sub0pipeline.Graph.Build.{WellFormed, all_live, degree_bound}
use sub0pipeline.Run.{init, roots}
use sub0pipeline.Run.Start.{count-roots}
use sub0pipeline.Run.Completion.{NoOnDemand}
use sub0pipeline.Run.Threaded.{Pc, idle, rooting, awaiting_all, over}
use sub0pipeline.Run.Threaded.Schedule.{
  System, pick, wait_all, start_run, Steps, no_step, one_more, Reach, begin, later,
}
use sub0pipeline.Run.Threaded.Claims.{claims, holds, owed, Inv}
use sub0pipeline.Run.Threaded.Duties.{duty, drains, ending, care, Ends}
use sub0pipeline.Run.Threaded.Safety.{next-Inv}
use sub0pipeline.Run.Threaded.Progress.{next-Ends}

-- Only the thread of run() has somewhere to be at the start.
pub at_first :
    (g : Graph) (f : Pc → ℕ)
    → f idle ≡ 0
    → total (suc g.size) (λ p. f ((start_run g).pc p)) ≡ f (rooting (roots g g.size))
unfolding start_run
at_first g f none =
    let at =
      total_at (suc g.size) g.size (λ p. f ((start_run g).pc p)) (λ p. 0) (omega arith)
        (λ p l ne. ground (arith, none, ne)) in
    let zeros = total_none (suc g.size) (λ p. 0) (λ p l. refl) in ground (arith, at, zeros)

owed_first :
    (g : Graph) (j p : ℕ) → p < g.size → owed g j (start_run g) p ≡ count j (g.node p).successors
unfolding start_run init
owed_first g j p l = ground arith

start_owed :
    (g : Graph)
    → WellFormed g
    → (j : ℕ) → j < g.size
    → total g.size (owed g j (start_run g)) ≡ (g.node j).predecessor_count
start_owed g wf j lt =
    let sums =
      total_ext g.size (owed g j (start_run g)) (live_edges g all_live j)
        (λ p l. owed_first g j p l) in
    omega (arith, sums, wf.counted j lt)

start-Inv : (g : Graph) → WellFormed g → Inv g (start_run g)
unfolding start_run init
start-Inv g wf = record {
  own = λ i l. ground arith;
  main = ground arith;
  single = λ i l. ground (arith, at_first g (holds i) refl, count-roots g g.size i);
  lowered = λ i l. ground (arith, start_owed g wf i l);
  small = λ i l. ground (arith, wf.counted i l, degree_bound g all_live i wf);
  zeroed = λ p pl i l. ground arith;
  freed = λ i l. ground (arith, start_owed g wf i l);
  calls = λ i l. ground arith;
}

start-Ends : (g : Graph) → WellFormed g → NoOnDemand g → Ends g (start_run g)
unfolding start_run init
start-Ends g wf plain = record {
  loops = λ p l. ground arith;
  jobs = λ p l. ground arith;
  drained = omega (arith, at_first g drains refl);
  watched = λ h. ground (arith, h);
  served = λ j l now. ground (arith, at_first g (duty j) refl, count-roots g g.size j, now);
  runs = λ j l now. ground (arith, now);
  complete = λ j l now. inr (ground (arith, start_owed g wf j l));
  claimable = λ j l now zeroed. ground (arith, plain j l, now, zeroed);
  doomed = λ j q l ql edge now bad. ground (arith, bad);
}

-- The return of waitAll().
module _ (g : Graph) (t : System) (at : t.pc g.size ≡ awaiting_all) where
  abbrev t' : System
  t' = record t { pc = update t.pc g.size over }

  pub same :
      (f : Pc → ℕ)
      → f over ≡ f awaiting_all
      → total (suc g.size) (λ q. f (t'.pc q)) ≡ total (suc g.size) (λ q. f (t.pc q))
  same f e =
      total_ext (suc g.size) (λ q. f (t'.pc q)) (λ q. f (t.pc q)) (λ q l. ground (arith, at, e))

  same_owed : (j : ℕ) → total g.size (owed g j t') ≡ total g.size (owed g j t)
  same_owed j = total_ext g.size (owed g j t') (owed g j t) (λ q l. ground arith)

  over-Inv : Inv g t → Inv g t'
  over-Inv inv = record {
    own = λ i l. ground (arith, inv.own i l);
    main = ground arith;
    single = λ i l. ground (arith, same (holds i) refl, inv.single i l);
    lowered = λ i l. omega (arith, same_owed i, inv.lowered i l);
    small = λ i l. inv.small i l;
    zeroed = λ p pl i l now. ground (arith, inv.zeroed p pl i l, now);
    freed = λ i l now. ground (arith, same_owed i, inv.freed i l, now);
    calls = λ i l. ground (arith, inv.calls i l);
  }

  same_care : (j : ℕ) → j < g.size → care g j t' ≡ care g j t
  same_care j l = ground (arith, same (duty j) refl)

  over-Ends : Ends g t → Ends g t'
  over-Ends ends = record {
    loops = λ p l. ground (arith, ends.loops p l);
    jobs = λ p l. ground (arith, ends.jobs p l);
    drained = omega (arith, same drains refl, ends.drained);
    watched = ends.watched;
    served = λ j l now. omega (arith, same_care j l, ends.served j l now);
    runs = λ j l now. ground (arith, ends.runs j l now);
    complete = λ j l now. elim (ends.complete j l now) [
      | inl cared ↦ inl (omega (arith, same_care j l, cared))
      | inr few ↦ inr (omega (arith, same_owed j, few))
    ];
    claimable = λ j l now zeroed.
        omega (arith, same_care j l, same (claims j) refl, ends.claimable j l now zeroed);
    doomed = λ j q l ql edge now bad.
        let before = ends.doomed j q l ql edge now bad in
        let here : ending (t'.pc q) ≡ ending (t.pc q) = ground arith in
        omega (arith, same_care j l, here, before);
  }

pub Reach-Inv : (g : Graph) (t : System) → WellFormed g → Reach g t → Inv g t
Reach-Inv g _ wf begin = start-Inv g wf
Reach-Inv g _ wf (later {s} r (pick i le mv)) = next-Inv g s (Reach-Inv g s wf r) i le mv
Reach-Inv g _ wf (later {s} r (wait_all at quiet)) = over-Inv g s at (Reach-Inv g s wf r)

pub Reach-Ends : (g : Graph) (t : System) → WellFormed g → NoOnDemand g → Reach g t → Ends g t
Reach-Ends g _ wf plain begin = start-Ends g wf plain
Reach-Ends g _ wf plain (later {s} r (pick i le mv)) =
    next-Ends g s (Reach-Inv g s wf r) (Reach-Ends g s wf plain r) i le mv
Reach-Ends g _ wf plain (later {s} r (wait_all at quiet)) =
    over-Ends g s at (Reach-Ends g s wf plain r)

pub Steps-Reach : (g : Graph) (n : ℕ) (t : System) → Steps g n t → Reach g t
Steps-Reach g _ _ no_step = begin
Steps-Reach g _ _ (one_more {n} {s} steps step) = later (Steps-Reach g n s steps) step
