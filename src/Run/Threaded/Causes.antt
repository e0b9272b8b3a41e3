-- ===== src/Run/Threaded/Causes.antt =====
-- Every state that a threaded run reaches has told the observer, and records, what it should.
use sub0pipeline.Prelude.{
  ℕ, suc, ◌+◌, ◌≤◌, ◌<◌, ◌≡◌, ◌⊎◌, refl, ◌∙◌, ap, inl, inr, true, some, arith, update, total,
  total-update, total_drop, le-total, total_none, dec_lt, ℕ_discrete,
}
use sub0pipeline.Types.{JobStatus, PipelineError, unexpected, status_of}
use sub0pipeline.Graph.{Graph}
use sub0pipeline.Graph.Build.{WellFormed}
use sub0pipeline.Run.{has_fatal_failure, is_ready, init}
use sub0pipeline.Run.Log.{tolerated}
use sub0pipeline.Run.Start.{count-roots}
use sub0pipeline.Run.Completion.{NoOnDemand}
use sub0pipeline.Run.Threaded.{Pc, Shared, Move, awaiting_all, over}
use sub0pipeline.Run.Threaded.Schedule.{System, start_run, Reach, begin, later, pick, wait_all}
use sub0pipeline.Run.Threaded.Claims.{holds, active, Inv}
use sub0pipeline.Run.Threaded.Duties.{Ends}
use sub0pipeline.Run.Threaded.Books.{PcBelow, rejects, has_failed, Books}
use sub0pipeline.Run.Threaded.Reports.{unreported, refused, Uncalled, Cause, Reports}
use sub0pipeline.Run.Threaded.Safety.{next, here}
use sub0pipeline.Run.Threaded.Entries.{Move-has_failed}
use sub0pipeline.Run.Threaded.Notices.{
  Move-fresh_right, Move-right, Move-rejects, Move-refused, Move-uncalled, Move-ended, Move-fatal,
  Move-once,
}
use sub0pipeline.Run.Threaded.Reachable.{at_first, same, Reach-Inv, Reach-Ends}
use sub0pipeline.Run.Threaded.Accounts.{Reach-Books}

rejects-holds : (s : ℕ) (q : Pc) → rejects s q ≤ holds s q
rejects-holds s q = ground arith

rejects-below : (n s : ℕ) (q : Pc) → PcBelow n q → 0 < rejects s q → s < n
rejects-below n s q named now = ground (arith, named, now)

failed_status :
    (error : PipelineError) {st : JobStatus}
    → error ≡ PipelineError.job_failed
    → st ≡ JobStatus.failed
    → st ≡ status_of (unexpected error)
unfolding status_of
failed_status error e h = ground (arith, e, h)

module _ (g : Graph) (t : System) (inv : Inv g t) (ends : Ends g t) (books : Books g t)
    (told : Reports g t) (i : ℕ) (le : i ≤ g.size) {m : Shared} {p : Pc}
    (mv : Move g i t.shared (t.pc i) m p) where
  abbrev t' : System
  t' = next g t inv i le mv

  abbrev sum : (Pc → ℕ) → ℕ
  sum f = total (suc g.size) (λ q. f (t.pc q))

  abbrev sum' : (Pc → ℕ) → ℕ
  sum' f = total (suc g.size) (λ q. f (t'.pc q))

  moved : (f : Pc → ℕ) → sum' f + f (t.pc i) ≡ sum f + f p
  moved f = total-update (suc g.size) i (λ q. f) t.pc p (omega arith)

  mine : (f : Pc → ℕ) → f (t.pc i) ≤ sum f
  mine f = le-total (suc g.size) i (λ q. f (t.pc q)) (omega arith)

  mine' : (f : Pc → ℕ) → f p ≤ sum' f
  mine' f = omega (arith, moved f, mine f)

  failed : has_failed (t.pc i) ≡ true → has_fatal_failure t.shared.run ≡ true
  failed = books.failed_first i le

  stays : has_fatal_failure t.shared.run ≡ true → has_fatal_failure m.run ≡ true
  stays = (Move-has_failed mv (ends.loops i le) failed).0

  -- A rejection that is under way is under way still, or recorded.
  rejects_on :
      (s : ℕ) → 0 < sum (rejects s) → (has_fatal_failure m.run ≡ true) ⊎ (0 < sum' (rejects s))
  rejects_on s now = elim (dec_lt 0 (rejects s (t.pc i))) [
    | yes here_now ↦ elim ((Move-rejects s mv (ends.loops i le)).0 here_now) [
      | inl still ↦ inr (omega (arith, still, mine' (rejects s)))
      | inr fatal ↦ inl fatal
    ]
    | no elsewhere ↦ inr (omega (arith, now, elsewhere, moved (rejects s)))
  ]

  abbrev Held : ℕ → Type 0
  Held s =
      (is_ready (m.run.status s) ≡ true) ⊎ (has_fatal_failure m.run ≡ true) ⊎ (0 < sum' (rejects s))

  Held-on : (s : ℕ) → s < g.size → 0 < sum (holds s) + t.shared.accepted s → Held s
  Held-on s lt before = elim (told.held s lt before) [
    | inl now ↦
        let away : s ≡ i → active (t.pc i) ≡ 0 = λ e. ground (arith, inv.single s lt, before, e) in
        elim (Move-right s mv away failed now) [
          | inl still ↦ inl still
          | inr (inl fatal) ↦ inr (inl (stays fatal))
          | inr (inr rejected) ↦ inr (inr (omega (arith, rejected, mine' (rejects s))))
        ]
    | inr (inl fatal) ↦ inr (inl (stays fatal))
    | inr (inr rejected) ↦ inr (rejects_on s rejected)
  ]

  next-Held : (s : ℕ) → s < g.size → 0 < sum' (holds s) + m.accepted s → Held s
  next-Held s lt now = elim (dec_lt 0 (sum (holds s) + t.shared.accepted s)) [
    | yes before ↦ Held-on s lt before
    | no none ↦
        let fresh : 0 < holds s p + m.accepted s = omega (arith, now, none, moved (holds s)) in
        elim (Move-fresh_right s mv fresh) [
          | inl before ↦ absurd (omega (arith, before, none, mine (holds s)))
          | inr ready_now ↦ inl ready_now
        ]
  ]

  next-noted : (q : ℕ) → q ≤ g.size → 0 < refused (t'.pc q) → has_fatal_failure m.run ≡ true
  next-noted q ql now = elim (ℕ_discrete i q) [
    | no other ↦ stays (told.noted q ql (ground (arith, now, other)))
    | yes same_thread ↦
        let at_p : 0 < refused p = ground (arith, now, same_thread) in
        elim (Move-refused mv (ends.loops i le) (books.named i le) at_p) [
          | inl before ↦ stays (told.noted i le before)
          | inr (s, lt, not_ready, more) ↦
              elim (told.held s lt (omega (arith, more, mine (holds s)))) [
                | inl is_now ↦ absurd (ground (arith, is_now, not_ready))
                | inr (inl fatal) ↦ stays fatal
                | inr (inr others) ↦
                    let apart =
                      total_drop (suc g.size) i (λ q. rejects s (t.pc q)) (λ q. holds s (t.pc q))
                        (omega arith) (λ q l. rejects-holds s (t.pc q)) in
                    absurd (omega (arith, apart, more, others, inv.single s lt))
              ]
        ]
  ]

  Uncalled-on : (s : ℕ) → Uncalled s t → Uncalled s t'
  Uncalled-on s (was, never) = elim (ℕ_discrete i s) [
    | yes e ↦
        let (still, never') =
          Move-uncalled s mv (here g t inv i le mv) was (ground (arith, never, e)) in
        (still, ground (arith, never', e))
    | no e ↦
        let (still, never') =
          Move-uncalled s mv (here g t inv i le mv) was (ground (arith, never, e)) in
        (still, ground (arith, never', e))
  ]

  next-Uncalled : (s : ℕ) → s < g.size → 0 < sum' (rejects s) → Uncalled s t'
  next-Uncalled s lt now = elim (dec_lt 0 (sum (rejects s))) [
    | yes before ↦ Uncalled-on s (told.uncalled s lt before)
    | no none ↦
        let fresh : 0 < rejects s p = omega (arith, now, none, moved (rejects s)) in
        elim ((Move-rejects s mv (ends.loops i le)).1 fresh) [
          | inl before ↦ absurd (omega (arith, before, none, mine (rejects s)))
          | inr (was, is_now, starts_same, unclaimed) ↦
              (is_now, ground (arith, was, starts_same, unclaimed, inv.calls s lt))
        ]
  ]

  Cause-on : (error : PipelineError) (x : ℕ) → Cause g t error x → Cause g t' error x
  Cause-on error x (lt, was, why) =
      let still = Move-ended x error mv (here g t inv i le mv) was in
      (
        lt,
        still ∙ was,
        elim why [
          | inl spoilt ↦ inl (ap (tolerated (g.node x).optional) still ∙ spoilt)
          | inr (named, unc) ↦ inr (named, Uncalled-on x unc)
        ],
      )

  next-caused : (error : PipelineError) (x : ℕ) → m.run.fatal ≡ some (error, x) → Cause g t' error x
  next-caused error x now =
      elim (Move-fatal error x mv (here g t inv i le mv) (told.noted i le) now) [
        | inl before ↦ Cause-on error x (told.caused error x before)
        | inr (inl (own, records, was, spoilt)) ↦
            let lt : x < g.size = ground (arith, own, records, inv.main, le) in
            Cause-on error x (lt, was, inl spoilt)
        | inr (inr (named, rejected)) ↦
            let lt = rejects-below g.size x (t.pc i) (books.named i le) rejected in
            let unc = told.uncalled x lt (omega (arith, rejected, mine (rejects x))) in
            Cause-on error x (lt, failed_status error named (unc.0), inr (named, unc))
      ]

  pub next-Reports : Reports g t'
  next-Reports = record {
    held = next-Held;
    noted = next-noted;
    uncalled = next-Uncalled;
    caused = next-caused;
    once = λ j lt.
        let threads = total-update (suc g.size) i (unreported j) t.pc p (omega arith) in
        omega
          (arith, Move-once j mv (here g t inv i le mv) (ends.loops i le), threads, told.once j lt);
  }

start-Reports : (g : Graph) → WellFormed g → Reports g (start_run g)
unfolding start_run init
start-Reports g wf = record {
  held = λ s lt now. inl (ground (arith, now, at_first g (holds s) refl, count-roots g g.size s));
  noted = λ q l now. ground (arith, now);
  uncalled = λ s lt now. absurd (omega (arith, now, at_first g (rejects s) refl));
  caused = λ error x now. ground (arith, now);
  once = λ j lt. ground (
    arith,
    total_none (suc g.size) (λ q. unreported j q ((start_run g).pc q)) (λ q l. ground arith),
  );
}

over-Reports :
    (g : Graph) (t : System) (at : t.pc g.size ≡ awaiting_all)
    → Reports g t
    → Reports g (record t { pc = update t.pc g.size over })
over-Reports g t at told = record {
  held = λ s lt now. elim (told.held s lt (omega (arith, now, same g t at (holds s) refl))) [
    | inl is_now ↦ inl is_now
    | inr (inl fatal) ↦ inr (inl fatal)
    | inr (inr rejected) ↦ inr (inr (omega (arith, rejected, same g t at (rejects s) refl)))
  ];
  noted = λ q l now. told.noted q l (ground (arith, now));
  uncalled = λ s lt now.
      let (was, never) = told.uncalled s lt (omega (arith, now, same g t at (rejects s) refl)) in
      (was, ground (arith, never));
  caused = λ error x now.
      let (lt, was, why) = told.caused error x now in
      (
        lt,
        was,
        elim why [
          | inl spoilt ↦ inl spoilt
          | inr (named, unc) ↦ inr (named, (unc.0, ground (arith, unc.1)))
        ],
      );
  once = λ j lt.
      let threads = total-update (suc g.size) g.size (unreported j) t.pc over (omega arith) in
      let before : unreported j g.size (t.pc g.size) ≡ 0 = ground (arith, at) in
      omega (arith, threads, before, told.once j lt);
}

pub Reach-Reports : (g : Graph) (t : System) → WellFormed g → NoOnDemand g → Reach g t → Reports g t
Reach-Reports g _ wf plain begin = start-Reports g wf
Reach-Reports g _ wf plain (later {s} r (pick i le mv)) =
    next-Reports g s (Reach-Inv g s wf r) (Reach-Ends g s wf plain r) (Reach-Books g s wf plain r)
      (Reach-Reports g s wf plain r) i le mv
Reach-Reports g _ wf plain (later {s} r (wait_all at quiet)) =
    over-Reports g s at (Reach-Reports g s wf plain r)
