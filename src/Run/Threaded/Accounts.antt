-- ===== src/Run/Threaded/Accounts.antt =====
-- A move of one thread keeps the accounts of the run.
use sub0pipeline.Prelude.{
  ℕ, suc, ◌+◌, ◌^◌, ◌≤◌, ◌<◌, ◌≡◌, ◌⊎◌, ap, refl, inl, inr, true, arith, if◌then◌else◌, ◌==◌,
  update, length, total, total-le, total-update, total_at, total_ext, total_none, dec_lt,
  ℕ_discrete, le-total,
}
use sub0pipeline.Types.{JobStatus}
use sub0pipeline.Graph.{Graph}
use sub0pipeline.Graph.Build.{WellFormed}
use sub0pipeline.Run.{has_fatal_failure, init}
use sub0pipeline.Run.Base.{one_if, terminal}
use sub0pipeline.Run.Start.{roots-below}
use sub0pipeline.Run.Completion.{NoOnDemand}
use sub0pipeline.Run.Threaded.{Pc, Shared, Move, awaiting_all, over}
use sub0pipeline.Run.Threaded.Schedule.{System, start_run, Reach, begin, later, pick, wait_all}
use sub0pipeline.Run.Threaded.Claims.{is_main, Inv}
use sub0pipeline.Run.Threaded.Duties.{ending, spoilt, Ends}
use sub0pipeline.Run.Threaded.Books.{uncounted, locks, rejects, Books}
use sub0pipeline.Run.Threaded.Safety.{next, here}
use sub0pipeline.Run.Threaded.Entries.{
  Move-PcBelow, Move-stacked, Move-locks, Move-has_failed, Move-recorded, Move-changed,
  Move-counted, changed,
}
use sub0pipeline.Run.Threaded.Reachable.{at_first, same, Reach-Inv, Reach-Ends}

module _ (g : Graph) (wf : WellFormed g) (t : System) (inv : Inv g t) (ends : Ends g t)
    (books : Books g t) (i : ℕ) (le : i ≤ g.size) {m : Shared} {p : Pc}
    (mv : Move g i t.shared (t.pc i) m p) where
  abbrev t' : System
  t' = next g t inv i le mv

  moved :
      (f : Pc → ℕ)
      → total (suc g.size) (λ q. f (t'.pc q)) + f (t.pc i)
        ≡ total (suc g.size) (λ q. f (t.pc q)) + f p
  moved f = total-update (suc g.size) i (λ q. f) t.pc p (omega arith)

  abbrev sum_over : (ℕ → JobStatus) → ℕ
  sum_over f = total g.size (λ j. one_if (terminal (f j)))

  on_main : i ≡ g.size → is_main (t.pc i) ≡ true
  on_main e = ground (arith, inv.main, e)

  room : t.shared.run.completed_count + 1 < 2 ^ 32
  room =
      let few =
        total-le g.size (λ j. one_if (terminal (t.shared.run.status j))) (λ j l. ground arith) in
      omega (arith, few, books.counted, wf.fits)

  sum_change :
      sum_over t.shared.run.status + one_if (terminal (m.run.status (changed mv)))
      ≡ sum_over m.run.status + one_if (terminal (t.shared.run.status (changed mv)))
  sum_change =
      let (others, where_at) = Move-changed mv le on_main (books.named i le) in
      elim where_at [
        | inl lt ↦
            total_at g.size (changed mv) (λ j. one_if (terminal (t.shared.run.status j)))
              (λ j. one_if (terminal (m.run.status j))) lt
              (λ j l ne. ap (λ st. one_if (terminal st)) (others j ne))
        | inr all_same ↦
            let sums =
              total_ext g.size (λ j. one_if (terminal (t.shared.run.status j)))
                (λ j. one_if (terminal (m.run.status j)))
                (λ j l. ap (λ st. one_if (terminal st)) (all_same j)) in
            let here_same = ap (λ st. one_if (terminal st)) (all_same (changed mv)) in
            omega (arith, sums, here_same)
      ]

  next-counted :
      m.run.completed_count
        + length m.run.skipped_jobs
        + total (suc g.size) (λ q. uncounted (t'.pc q))
      ≡ sum_over m.run.status
  next-counted =
      let step = Move-counted mv (here g t inv i le mv) room (ends.loops i le) in
      omega (arith, step, sum_change, moved uncounted, books.counted)

  mine_first : (j : ℕ) → rejects j (t.pc i) ≤ total (suc g.size) (λ q. rejects j (t.pc q))
  mine_first j = le-total (suc g.size) i (λ q. rejects j (t.pc q)) (omega arith)

  other_due :
      (j : ℕ)
      → 0 < ending (t.pc j) + total (suc g.size) (λ q. rejects j (t.pc q))
      → ¬ (0 < (if j == i then ending (t.pc i) else 0) + rejects j (t.pc i))
      → 0 < ending (t'.pc j) + total (suc g.size) (λ q. rejects j (t'.pc q))
  other_due j due others = elim (ℕ_discrete i j) [
    | yes same_job ↦ ground (arith, due, others, same_job, moved (rejects j), mine_first j)
    | no other ↦ ground (arith, due, others, other, moved (rejects j), mine_first j)
  ]

  handed :
      (j : ℕ)
      → (has_fatal_failure m.run ≡ true) ⊎ (0 < (if j == i then ending p else 0) + rejects j p)
      → (has_fatal_failure m.run ≡ true)
        ⊎ (0 < ending (t'.pc j) + total (suc g.size) (λ q. rejects j (t'.pc q)))
  handed j (inl fatal) = inl fatal
  handed j (inr due) = inr (ground (arith, due, moved (rejects j), mine_first j))

  next-recorded :
      (j : ℕ)
      → j < g.size
      → spoilt g j (m.run.status j) ≡ true
      → (has_fatal_failure m.run ≡ true)
        ⊎ (0 < ending (t'.pc j) + total (suc g.size) (λ q. rejects j (t'.pc q)))
  next-recorded j lt bad =
      let (keeps, comes) =
        Move-recorded j mv (here g t inv i le mv) (books.failed_first i le) bad in
      let stays = (Move-has_failed mv (ends.loops i le) (books.failed_first i le)).0 in
      elim comes [
        | inl before ↦ elim (books.recorded j lt before) [
          | inl fatal ↦ inl (stays fatal)
          | inr due ↦
              elim (dec_lt 0 ((if j == i then ending (t.pc i) else 0) + rejects j (t.pc i))) [
                | yes mine ↦ handed j (keeps before (inr mine))
                | no others ↦ inr (other_due j due others)
              ]
        ]
        | inr now ↦ handed j now
      ]

  pub next-Books : Books g t'
  next-Books =
      let most = le-total (suc g.size) i (λ q. locks (t.pc q)) (omega arith) in
      let lock = Move-locks mv (ends.loops i le) (omega (arith, most, books.owned)) in
      let (stays, mine) = Move-has_failed mv (ends.loops i le) (books.failed_first i le) in
      record {
        named = λ q l. ground (
          arith,
          books.named q l,
          Move-PcBelow mv wf le on_main books.stacked (books.named i le),
        );
        stacked = Move-stacked mv books.stacked (books.named i le);
        counted = next-counted;
        owned = omega (arith, lock, moved locks, books.owned);
        failed_first = λ q l now. elim (ℕ_discrete i q) [
          | yes same ↦ mine (ground (arith, now, same))
          | no other ↦ stays (books.failed_first q l (ground (arith, now, other)))
        ];
        recorded = next-recorded;
      }

start-Books : (g : Graph) → WellFormed g → Books g (start_run g)
unfolding start_run init
start-Books g wf = record {
  named = λ q l. ground (arith, roots-below g g.size);
  stacked = tt;
  counted = omega (
    arith,
    at_first g uncounted refl,
    total_none g.size (λ j. one_if (terminal ((start_run g).shared.run.status j)))
        (λ j l. ground arith),
  );
  owned = omega (arith, at_first g locks refl);
  failed_first = λ q l now. ground (arith, now);
  recorded = λ j l bad. ground (arith, bad);
}

over-Books :
    (g : Graph) (t : System) (at : t.pc g.size ≡ awaiting_all)
    → Books g t
    → Books g (record t { pc = update t.pc g.size over })
over-Books g t at books = record {
  named = λ q l. ground (arith, books.named q l);
  stacked = books.stacked;
  counted = omega (arith, same g t at uncounted refl, books.counted);
  owned = omega (arith, same g t at locks refl, books.owned);
  failed_first = λ q l now. ground (arith, books.failed_first q l, now);
  recorded = λ j l bad. elim (books.recorded j l bad) [
    | inl fatal ↦ inl fatal
    | inr due ↦
        let here : ending (update t.pc g.size over j) ≡ ending (t.pc j) = ground arith in
        inr (omega (arith, same g t at (rejects j) refl, here, due))
  ];
}

pub Reach-Books : (g : Graph) (t : System) → WellFormed g → NoOnDemand g → Reach g t → Books g t
Reach-Books g _ wf plain begin = start-Books g wf
Reach-Books g _ wf plain (later {s} r (pick i le mv)) =
    next-Books g wf s (Reach-Inv g s wf r) (Reach-Ends g s wf plain r) (Reach-Books g s wf plain r)
      i le mv
Reach-Books g _ wf plain (later {s} r (wait_all at quiet)) =
    over-Books g s at (Reach-Books g s wf plain r)
