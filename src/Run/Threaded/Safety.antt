-- ===== src/Run/Threaded/Safety.antt =====
-- The invariant of a threaded run, and what it says of every reachable state.
use sub0pipeline.Prelude.{
  ℕ, suc, ◌+◌, ◌≤◌, ◌<◌, ◌≡◌, true, arith, update, count, total, total-update, total_mono,
  total_drop, inl, inr, dec_lt, ℕ_discrete, le-total,
}
use sub0pipeline.Types.{JobStatus}
use sub0pipeline.Graph.{Graph, Node}
use sub0pipeline.Run.Log.{tolerated}
use sub0pipeline.Run.Threaded.{Pc, within, Shared, Move}
use sub0pipeline.Run.Threaded.Schedule.{System}
use sub0pipeline.Run.Threaded.Claims.{holds, claims, Own, is_main, owed, live, Inv}
use sub0pipeline.Run.Threaded.Moves.{Move-status, Move-own, Move-others, Move-unpaid, unpaid_mono}
use sub0pipeline.Run.Threaded.Transfers.{
  Move-single, Move-unmet, Move-calls, Move-live, Move-claims, Move-is_main, Move-main,
}

main-Own : (nd : Node) (st : JobStatus) (q : Pc) → is_main q ≡ true → Own nd st q
main-Own nd st (within c k) main = main-Own nd st k (ground (arith, main))
main-Own nd st q main = ground (arith, main)

module _ (g : Graph) (t : System) (inv : Inv g t) (i : ℕ) (le : i ≤ g.size) {m : Shared} {p : Pc}
    (mv : Move g i t.shared (t.pc i) m p) where
  abbrev pub next : System
  next = record { shared = m; pc = update t.pc i p }

  pub here : Own (g.node i) (t.shared.run.status i) (t.pc i)
  here = elim (dec_lt i g.size) [
    | yes lt ↦ inv.own i lt
    | no last ↦
        main-Own (g.node i) (t.shared.run.status i) (t.pc i) (ground (arith, inv.main, le, last))
  ]

  pub next-own : (j : ℕ) → j < g.size → Own (g.node j) (next.shared.run.status j) (next.pc j)
  next-own j lt = elim (ℕ_discrete i j) [
    | yes same ↦ ground (arith, same, Move-own mv here)
    | no other ↦ ground (arith, other, Move-others mv j (t.pc j) (λ e. ground arith) (inv.own j lt))
  ]

  pub owed-next : (j p : ℕ) → p < g.size → owed g j next p ≤ owed g j t p
  owed-next j q lt = elim (ℕ_discrete i q) [
    | yes same ↦ ground (arith, same, Move-unpaid j mv here)
    | no other ↦
        let keep = Move-status mv here q in
        let mono =
          unpaid_mono j (count j (g.node q).successors) (t.pc q)
            (tolerated (g.node q).optional (t.shared.run.status q))
            (tolerated (g.node q).optional (m.run.status q))
            (λ good. ground (arith, keep good, good)) in
        ground (arith, other, mono)
  ]

  -- The dependencies that are counted, before and after, with the edges that the threads owe.
  pub next-unmet :
      (j : ℕ)
      → j < g.size
      → (m.run.unmet_deps j ≤ t.shared.run.unmet_deps j)
        × (t.shared.run.unmet_deps j + total g.size (owed g j next)
            ≤ m.run.unmet_deps j + total g.size (owed g j t))
  next-unmet j lt = elim (dec_lt i g.size) [
    | yes job ↦
        let most = le-total g.size i (owed g j t) job in
        let (less, paid) =
          Move-unmet j mv here (inv.small j lt) (omega (arith, most, inv.lowered j lt)) in
        let drop = total_drop g.size i (owed g j next) (owed g j t) job (owed-next j) in
        (less, ground (arith, paid, drop))
    | no last ↦
        let same = Move-main j mv (ground (arith, inv.main, le, last)) in
        let sums = total_mono g.size (owed g j next) (owed g j t) (owed-next j) in
        (omega (arith, same), omega (arith, same, sums))
  ]

  pub next-holds :
      (j : ℕ)
      → total (suc g.size) (λ q. holds j (next.pc q)) + holds j (t.pc i)
        ≡ total (suc g.size) (λ q. holds j (t.pc q)) + holds j p
  next-holds j = total-update (suc g.size) i (λ q. holds j) t.pc p (omega arith)

  next-zeroed :
      (q : ℕ)
      → q ≤ g.size
      → (j : ℕ) → j < g.size
      → 0 < claims j (next.pc q)
      → m.run.unmet_deps j ≡ 0
  next-zeroed q ql j lt c =
      let (less, paid) = next-unmet j lt in
      elim (ℕ_discrete i q) [
        | yes same ↦ elim (Move-claims j mv (ground (arith, c, same))) [
          | inl held ↦ omega (arith, inv.zeroed i le j lt held)
          | inr done ↦ done
        ]
        | no other ↦ omega (arith, inv.zeroed q ql j lt (ground (arith, c, other)))
      ]

  next-freed : (j : ℕ) → j < g.size → 0 < live j next → total g.size (owed g j next) ≡ 0
  next-freed j lt now =
      let (less, paid) = next-unmet j lt in
      let sums = total_mono g.size (owed g j next) (owed g j t) (owed-next j) in
      elim (dec_lt 0 (live j t)) [
        | yes before ↦ omega (arith, sums, inv.freed j lt before)
        | no fresh ↦
            let claimed : 0 < claims j (t.pc i) = ground (arith, Move-live j mv, now, fresh) in
            omega (arith, sums, inv.zeroed i le j lt claimed, inv.lowered j lt)
      ]

  pub next-Inv : Inv g next
  next-Inv = record {
    own = next-own;
    main = elim (ℕ_discrete i g.size) [
      | yes last ↦ ground (arith, last, Move-is_main mv last, inv.main)
      | no job ↦ ground (arith, job, inv.main)
    ];
    single = λ j lt. ground (arith, Move-single j mv, next-holds j, inv.single j lt);
    lowered = λ j lt. omega (arith, (next-unmet j lt).0, (next-unmet j lt).1, inv.lowered j lt);
    small = λ j lt. omega (arith, (next-unmet j lt).0, inv.small j lt);
    zeroed = next-zeroed;
    freed = next-freed;
    calls = λ j lt. ground (arith, Move-calls j mv, inv.calls j lt);
  }
