-- ===== src/Run/Threaded/Schedule.antt =====
-- The threads of one run, in whatever order they move: src/sub0pipeline.cpp, runImpl from its loop
-- over the roots to the return of waitAll().
use sub0pipeline.Prelude.{ℕ, zero, suc, ◌<◌, ◌≤◌, ◌≡◌, false, [], ◌==◌, if◌then◌else◌, update}
use sub0pipeline.Graph.{Graph}
use sub0pipeline.Run.{init, roots}
use sub0pipeline.Run.Threaded.{Pc, idle, rooting, awaiting_all, over, Shared, Move}

pub record System : Type 0 where
  pub shared : Shared
  pub pc : ℕ → Pc

-- No callback runs and none is accepted: what executor.waitAll() waits for.
abbrev pub Quiet : Graph → System → Type 0
Quiet g s = (i : ℕ) → i < g.size → (s.pc i ≡ idle) × (s.shared.accepted i ≡ 0)

pub data Step (g : Graph) (s : System) : System → Type 0 where
  pick :
      (i : ℕ) {m : Shared} {p : Pc}
      → i ≤ g.size
      → Move g i s.shared (s.pc i) m p
      → Step g s (record { shared = m; pc = update s.pc i p })
  wait_all :
      s.pc g.size ≡ awaiting_all → Quiet g s → Step g s (record s { pc = update s.pc g.size over })

-- The state when the threaded branch is entered.
unfoldable pub start_run : Graph → System
unfolding init roots
start_run g = record {
  shared = record {
    run = record (init g) { inline_ready = [] };
    accepted = λ i. 0;
    locked = false;
  };
  pc = λ i. if i == g.size then rooting (roots g g.size) else idle;
}

pub data Reach (g : Graph) : System → Type 0 where
  begin : Reach g (start_run g)
  later : {s t : System} → Reach g s → Step g s t → Reach g t

-- The states that `n` steps lead to.
pub data Steps (g : Graph) : ℕ → System → Type 0 where
  no_step : Steps g zero (start_run g)
  one_more : {n : ℕ} {s t : System} → Steps g n s → Step g s t → Steps g (suc n) t
