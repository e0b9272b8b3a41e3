-- ===== src/Run/Threaded/Progress.antt =====
-- A move of one thread keeps some thread responsible for every job that waits.
use sub0pipeline.Prelude.{
  ℕ, suc, ◌+◌, ◌≤◌, ◌<◌, ◌≡◌, ◌≢◌, ◌⊎◌, sym, true, ◌||◌, arith, if◌then◌else◌, ◌==◌, count, total,
  total-update, total_at, total_ext, inl, inr, dec_lt, ℕ_discrete, le-total,
}
use sub0pipeline.Graph.{Graph}
use sub0pipeline.Graph.Degrees.{Edge}
use sub0pipeline.Run.Base.{pend}
use sub0pipeline.Run.Log.{tolerated}
use sub0pipeline.Run.{is_ready, is_pending}
use sub0pipeline.Run.Threaded.{Pc, Shared, Move}
use sub0pipeline.Run.Threaded.Schedule.{System}
use sub0pipeline.Run.Threaded.Claims.{claims, holds, active, unpaid, owed, Inv}
use sub0pipeline.Run.Threaded.Duties.{duty, ending, in_call, is_running, drains, care, spoilt, Ends}
use sub0pipeline.Run.Threaded.Transfers.{Move-main}
use sub0pipeline.Run.Threaded.Safety.{next, here}
use sub0pipeline.Run.Threaded.Turns.{
  Move-duty, Move-fresh, Move-runs, Move-claimable, Move-steady, Move-pays, Move-doomed,
  Move-drains, Move-shaped, Move-on_root,
}

module _ (g : Graph) (t : System) (inv : Inv g t) (ends : Ends g t) (i : ℕ) (le : i ≤ g.size)
    {m : Shared} {p : Pc} (mv : Move g i t.shared (t.pc i) m p) where
  abbrev t' : System
  t' = next g t inv i le mv

  -- A sum over the threads, before and after.
  moved :
      (f : Pc → ℕ)
      → total (suc g.size) (λ q. f (t'.pc q)) + f (t.pc i)
        ≡ total (suc g.size) (λ q. f (t.pc q)) + f p
  moved f = total-update (suc g.size) i (λ q. f) t.pc p (omega arith)

  one :
      (j : ℕ)
      → j < g.size
      → holds j (t.pc i) + (if j == i then active (t.pc i) else 0) + pend (t.shared.run.status j)
        ≤ 1
  one j lt =
      let most = le-total (suc g.size) i (λ q. holds j (t.pc q)) (omega arith) in
      ground (arith, most, inv.single j lt)

  kept :
      (j : ℕ)
      → j < g.size
      → (is_pending (m.run.status j) || is_ready (m.run.status j)) ≡ true
      → 0 < care g j t
      → 0 < care g j t'
  kept j lt waits before = ground (
    arith,
    moved (duty j),
    Move-duty j mv lt (one j lt) waits,
    before,
    le-total (suc g.size) i (λ q. duty j (t.pc q)) (omega arith),
  )

  dutiful : (j : ℕ) → 0 < duty j p → 0 < care g j t'
  dutiful j now =
      ground
        (arith, moved (duty j), now, le-total (suc g.size) i (λ q. duty j (t.pc q)) (omega arith))

  next-served : (j : ℕ) → j < g.size → is_ready (m.run.status j) ≡ true → 0 < care g j t'
  next-served j lt now = elim ((Move-fresh j mv).1 now) [
    | inl before ↦ kept j lt (ground (arith, now)) (ends.served j lt before)
    | inr duty_now ↦ dutiful j duty_now
  ]

  next-runs : (j : ℕ) → j < g.size → is_running (m.run.status j) ≡ true → 0 < in_call (t'.pc j)
  next-runs j lt now =
      elim (Move-runs j mv (here g t inv i le mv) (λ was e. ground (arith, e, ends.runs j lt was))
        now) [
          | inl (was, other) ↦ ground (arith, other, ends.runs j lt was)
          | inr (same, call) ↦ ground (arith, same, call)
        ]

  next-claimable :
      (j : ℕ)
      → j < g.size
      → is_pending (m.run.status j) ≡ true
      → m.run.unmet_deps j ≡ 0
      → 0 < total (suc g.size) (λ q. claims j (t'.pc q)) + care g j t'
  next-claimable j lt wait zeroed =
      let (keeps, comes) = Move-claimable j mv wait in
      let was = (Move-fresh j mv).0 wait in
      let still = kept j lt (ground (arith, wait)) in
      let mine = le-total (suc g.size) i (λ q. claims j (t.pc q)) (omega arith) in
      elim (comes zeroed) [
        | inl before ↦
            ground (
              arith,
              ends.claimable j lt was before,
              still,
              keeps,
              mine,
              moved (claims j),
              dutiful j,
            )
        | inr claimed ↦ ground (arith, claimed, moved (claims j), mine)
      ]

  passed :
      (j q : ℕ)
      → 0 < count q m.run.skipped_jobs + (if q == i then ending p else 0) + duty j p
      → 0 < count q m.run.skipped_jobs + ending (t'.pc q) + care g j t'
  passed j q now = elim (dec_lt 0 (duty j p)) [
    | yes here ↦ omega (arith, dutiful j here)
    | no elsewhere ↦
        let ended : 0 < count q m.run.skipped_jobs + ending (t'.pc q) =
          ground (arith, now, elsewhere) in
        omega (arith, ended)
  ]

  next-doomed :
      (j q : ℕ)
      → j < g.size
      → q < g.size
      → Edge g q j
      → is_pending (m.run.status j) ≡ true
      → spoilt g q (m.run.status q) ≡ true
      → 0 < count q m.run.skipped_jobs + ending (t'.pc q) + care g j t'
  next-doomed j q lt ql edge wait bad =
      let (keeps, comes) = Move-doomed j q mv lt (here g t inv i le mv) edge wait bad in
      let still = kept j lt (ground (arith, wait)) in
      let was = (Move-fresh j mv).0 wait in
      elim comes [
        | inl before ↦ elim (dec_lt 0 (care g j t)) [
          | yes cared ↦ omega (arith, still cared)
          | no none ↦
              let held : 0 < count q t.shared.run.skipped_jobs + ending (t.pc q) =
                omega (arith, ends.doomed j q lt ql edge was before, none) in
              elim (ℕ_discrete i q) [
                | yes same ↦ passed j q (keeps before (ground (arith, held, same)))
                | no other ↦ elim (dec_lt 0 (ending (t.pc q))) [
                  | yes ends_q ↦ ground (arith, ends_q, other)
                  | no calm ↦ passed j q (keeps before (ground (arith, held, other, calm)))
                ]
              ]
        ]
        | inr now ↦ passed j q now
      ]

  -- The jobs of the other threads owe what they owed, if the move leaves their results as they are.
  other-owed :
      (j q : ℕ)
      → q ≢ i
      → tolerated (g.node q).optional (t.shared.run.status q)
        ≡ tolerated (g.node q).optional (m.run.status q)
      → owed g j t' q ≡ owed g j t q
  other-owed j q ne same = let apart : i ≢ q = λ e. ne (sym e) in ground (arith, same, apart)

  next_complete :
      (j : ℕ)
      → j < g.size
      → is_pending (m.run.status j) ≡ true
      → (0 < care g j t') ⊎ (m.run.unmet_deps j ≤ total g.size (owed g j t'))
  next_complete j lt wait = elim (ends.complete j lt ((Move-fresh j mv).0 wait)) [
    | inl cared ↦ inl (kept j lt (ground (arith, wait)) cared)
    | inr few ↦ elim (Move-steady j mv) [
      | inl now ↦ inl (dutiful j now)
      | inr same ↦ elim (dec_lt i g.size) [
        | yes job ↦
            let most = le-total g.size i (owed g j t) job in
            let sums =
              total_at g.size i (owed g j t') (owed g j t) job
                (λ q l ne. other-owed j q ne (same q ne)) in
            elim (Move-pays j mv lt (here g t inv i le mv)
              (omega (arith, most, inv.lowered j lt))) [
                | inl now ↦ inl (dutiful j now)
                | inr paid ↦ inr (settled j job few sums paid)
              ]
        | no last ↦
            let kept = Move-main j mv (ground (arith, inv.main, le, last)) in
            let sums = total_ext g.size (owed g j t') (owed g j t) (λ q l.
              other-owed j q (λ e. absurd (omega arith)) (same q (λ e. absurd (omega arith)))) in
            inr (omega (arith, few, kept, sums))
      ]
    ]
  ]
    where
      settled :
          (j : ℕ)
          → i < g.size
          → t.shared.run.unmet_deps j ≤ total g.size (owed g j t)
          → total g.size (owed g j t') + owed g j t i ≡ total g.size (owed g j t) + owed g j t' i
          → m.run.unmet_deps j
              + unpaid j
                  (count j (g.node i).successors)
                  (tolerated (g.node i).optional (t.shared.run.status i))
                  (t.pc i)
            ≤ t.shared.run.unmet_deps j
              + unpaid j
                  (count j (g.node i).successors)
                  (tolerated (g.node i).optional (m.run.status i))
                  p
          → m.run.unmet_deps j ≤ total g.size (owed g j t')
      settled j job few sums paid = ground (arith, few, sums, paid)

  pub next-Ends : Ends g t'
  next-Ends =
      let most = le-total (suc g.size) i (λ q. drains (t.pc q)) (omega arith) in
      let (flag, watched) =
        Move-drains mv (ends.loops i le) (omega (arith, most, ends.drained)) ends.watched in
      record {
        loops = λ q l. ground (arith, ends.loops q l, Move-shaped mv (ends.loops i le));
        jobs = λ q l. elim (ℕ_discrete i q) [
          | yes same ↦
              let apart : i ≢ g.size = λ e. absurd (omega arith) in
              ground (arith, same, Move-on_root mv apart, ends.jobs q l)
          | no other ↦ ground (arith, other, ends.jobs q l)
        ];
        drained = omega (arith, flag, moved drains, ends.drained);
        watched = watched;
        served = next-served;
        runs = next-runs;
        complete = next_complete;
        claimable = next-claimable;
        doomed = next-doomed;
      }
