-- ===== src/Run/Start.antt =====
-- The state that runImpl sets up, and what holds when the loop has ended.
use sub0pipeline.Prelude.{
  ℕ, zero, suc, ◌+◌, ◌≡◌, refl, sym, [], ◌∷◌, arith, if◌then◌else◌, length, length-append, count,
  count-append, AllBelow, AllBelow-append, AllBelow-mono, total, total_none, total-suc, total_zero,
  ltb,
}
use sub0pipeline.Graph.{Graph}
use sub0pipeline.Graph.Degrees.{degree_ext}
use sub0pipeline.Graph.Build.{WellFormed, all_live}
use sub0pipeline.Invoke.{JobEnv}
use sub0pipeline.Run.{is_root, roots, init, run_jobs}
use sub0pipeline.Run.Base.{pend, one_if}
use sub0pipeline.Run.Live.{Live, live}
use sub0pipeline.Run.Fatal.{going}
use sub0pipeline.Run.Loop.{Over, run_loop-Over}

pub count-roots :
    (g : Graph) (n i : ℕ)
    → count i (roots g n) ≡ (if ltb i n then one_if (is_root (g.node i)) else 0)
unfolding roots
count-roots g zero i = ground arith
count-roots g (suc k) i = ground (
  arith,
  count-roots g k i,
  count-append i (roots g k) (if is_root (g.node k) then k ∷ [] else []),
)

pub roots-below : (g : Graph) (n : ℕ) → AllBelow n (roots g n)
unfolding roots
roots-below g zero = tt
roots-below g (suc k) =
    AllBelow-append (suc k) (roots g k) _
      (AllBelow-mono k (suc k) (roots g k) (omega arith) (roots-below g k)) (ground arith)

-- Every job is a root, or pending.
roots-length :
    (g : Graph) (n : ℕ) → length (roots g n) + total n (λ i. pend ((init g).status i)) ≡ n
roots-length g zero = unfold roots in omega (arith, total_zero (λ i. pend ((init g).status i)))
roots-length g (suc k) = last (roots-length g k)
  where
    last :
        length (roots g k) + total k (λ i. pend ((init g).status i)) ≡ k
        → length (roots g (suc k)) + total (suc k) (λ i. pend ((init g).status i)) ≡ suc k
    last ih =
        unfold roots init in
        ground (
          arith,
          ih,
          total-suc k (λ i. pend ((init g).status i)),
          length-append (roots g k) (if is_root (g.node k) then k ∷ [] else []),
        )

init-Live : (g : Graph) → WellFormed g → Live g g.size [] (init g)
unfolding init
init-Live g wf = record {
  base = record {
    stacked = tt;
    queued = roots-below g g.size;
    counted = sym (total_none g.size _ (λ i l. ground arith));
    once = λ i l. ground arith;
    calls = λ i l. ground arith;
    ordered = tt;
    room = omega (arith, roots-length g g.size);
  };
  listed = λ i l now. ground (arith, now, count-roots g g.size i);
  calm = refl;
  unfailed = refl;
  empty = refl;
  brief = omega arith;
  lowered = λ i l.
      omega (arith, wf.counted i l, degree_ext g all_live (live (init g)) i (λ p pl. ground arith));
  tidy = λ i l. ground arith;
  freed = λ i l now. ground arith;
  held = λ i l now. ground arith;
  through = λ p l now. ground arith;
  fine = λ p l now. ground arith;
  quiet = refl;
}

-- The run ends with an empty worklist, whatever the jobs do.
pub run_jobs-Over : (g : Graph) (env : ℕ → JobEnv) → WellFormed g → Over g (run_jobs g env)
unfolding run_jobs
run_jobs-Over g env wf = run_loop-Over g env g.size (init g) wf (going (init-Live g wf))
