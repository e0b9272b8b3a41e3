-- ===== src/Run/Threaded/Deadlock.antt =====
-- No state that a threaded run reaches is stuck.
use sub0pipeline.Prelude.{
  ℕ, true, false, suc, zero, ◌≤◌, ◌<◌, ◌≡◌, ◌⊎◌, inl, inr, true, false, arith, total_pos,
  Bool-cases, ℕ_discrete,
}
use sub0pipeline.Types.{value}
use sub0pipeline.Graph.{Graph}
use sub0pipeline.Graph.Build.{WellFormed}
use sub0pipeline.Run.Completion.{NoOnDemand}
use sub0pipeline.Run.Threaded.{over, idle}
use sub0pipeline.Run.Threaded.Schedule.{Step, pick, wait_all, Reach, Quiet, System}
use sub0pipeline.Run.Threaded.Books.{locks}
use sub0pipeline.Run.Threaded.Reachable.{Reach-Inv, Reach-Ends}
use sub0pipeline.Run.Threaded.Accounts.{Reach-Books}
use sub0pipeline.Run.Threaded.Chances.{
  World, rests, waits_all, returned_all, waits_lock, moves, Chance, chance,
}

-- A world in which every call returns at once: which one it is makes no difference here.
abbrev any_world : World
any_world = record {
  env = λ i. record {
    stopped_at_entry = false;
    body = value tt;
    service = false;
    armed = false;
    stopped_after_arm = false;
    finished = true;
    expired = false;
  };
  refuses = λ i. false;
}

module _ (g : Graph) (t : System) (wf : WellFormed g) (plain : NoOnDemand g) (r : Reach g t) where
  abbrev Next : Type 0
  Next = (t' : System) × Step g t t'

  can : (q : ℕ) → q ≤ g.size → Chance g q t.shared (t.pc q)
  can q le = chance g any_world q t.shared (t.pc q) ((Reach-Ends g t wf plain r).loops q le)

  -- Who holds skipMutex can move.
  holder : t.shared.locked ≡ true → Next
  holder held =
      let books = Reach-Books g t wf plain r in
      let (q, lt, mine) =
        total_pos (suc g.size) (λ q. locks (t.pc q)) (ground (arith, books.owned, held)) in
      holding q (omega arith) mine (can q (omega arith))
    where
      holding : (q : ℕ) → q ≤ g.size → 0 < locks (t.pc q) → Chance g q t.shared (t.pc q) → Next
      holding q le mine (rests (e, none)) = absurd (ground (arith, mine, e))
      holding q le mine (waits_all e) = absurd (ground (arith, mine, e))
      holding q le mine (returned_all e) = absurd (ground (arith, mine, e))
      holding q le mine (waits_lock h none) = absurd (omega (arith, mine, none))
      holding q le mine (moves m' p' mv) = (_, pick q le mv)

  callbacks :
      t.shared.locked ≡ false
      → (n : ℕ) → n ≤ g.size
      → ((q : ℕ) → q < n → (t.pc q ≡ idle) × (t.shared.accepted q ≡ 0)) ⊎ Next
  callbacks free zero le = inl (λ q lt. absurd (omega arith))
  callbacks free (suc n) le = elim (callbacks free n (omega arith)) [
    | inl idle_before ↦ with_last idle_before (can n (omega arith))
    | inr next ↦ inr next
  ]
    where
      with_last :
          ((q : ℕ) → q < n → (t.pc q ≡ idle) × (t.shared.accepted q ≡ 0))
          → Chance g n t.shared (t.pc n)
          → ((q : ℕ) → q < suc n → (t.pc q ≡ idle) × (t.shared.accepted q ≡ 0)) ⊎ Next
      with_last before (rests e) = inl (λ q lt. elim (ℕ_discrete q n) [
        | yes last ↦ rw last e
        | no other ↦ before q (omega arith)
      ])
      with_last before (waits_all e) =
          absurd (ground (arith, (Reach-Ends g t wf plain r).jobs n (omega arith), e))
      with_last before (returned_all e) =
          absurd (ground (arith, (Reach-Ends g t wf plain r).jobs n (omega arith), e))
      with_last before (waits_lock h none) = absurd (ground (arith, h, free))
      with_last before (moves m' p' mv) = inr (_, pick n (omega arith) mv)

  run_thread : t.shared.locked ≡ false → Quiet g t → (t.pc g.size ≡ over) ⊎ Next
  run_thread free quiet = by_chance (can g.size (omega arith))
    where
      by_chance : Chance g g.size t.shared (t.pc g.size) → (t.pc g.size ≡ over) ⊎ Next
      by_chance (rests (e, none)) = absurd (ground (arith, (Reach-Inv g t wf r).main, e))
      by_chance (waits_all e) = inr (_, wait_all e quiet)
      by_chance (returned_all e) = inl e
      by_chance (waits_lock h none) = absurd (ground (arith, h, free))
      by_chance (moves m' p' mv) = inr (_, pick g.size (omega arith) mv)

-- Every state that a threaded run of a well-formed graph without on-demand jobs reaches is the
-- end of run(), or some thread can take a step: there is no deadlock on skipMutex and no
-- endless wait in waitAll().
pub Reach-moves :
    (g : Graph) (t : System)
    → WellFormed g
    → NoOnDemand g
    → Reach g t
    → (t.pc g.size ≡ over) ⊎ ((t' : System) × Step g t t')
Reach-moves g t wf plain r = elim (Bool-cases t.shared.locked) [
  | inl held ↦ inr (holder g t wf plain r held)
  | inr free ↦ elim (callbacks g t wf plain r free g.size (omega arith)) [
    | inl quiet ↦ run_thread g t wf plain r free quiet
    | inr next ↦ inr next
  ]
]
