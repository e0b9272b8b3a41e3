-- ===== src/Graph/Degrees.antt =====
-- How many edges lead to a job from the jobs that are still live (not closed).
use sub0pipeline.Prelude.{
  ℕ, ◌+◌, ◌<◌, ◌≡◌, ◌≢◌, Bool, true, false, arith, if◌then◌else◌, total, total_ext, total_at,
  total_pos, le-total, count,
}
use sub0pipeline.Graph.{Graph}

abbrev pub Edge : Graph → ℕ → ℕ → Type 0
Edge g p s = 0 < count s (g.node p).successors

-- The edges from `p` to `i`, if `p` is live.
abbrev pub live_edges : Graph → (ℕ → Bool) → ℕ → ℕ → ℕ
live_edges g live i p = if live p then count i (g.node p).successors else 0

-- The edges to `i` from live jobs.
abbrev pub degree : Graph → (ℕ → Bool) → ℕ → ℕ
degree g live i = total g.size (live_edges g live i)

-- Closing `x` takes its edges away.
pub degree_close :
    (g : Graph) (live live' : ℕ → Bool) (x i : ℕ)
    → x < g.size
    → live x ≡ true
    → live' x ≡ false
    → ((p : ℕ) → p ≢ x → live p ≡ live' p)
    → degree g live i ≡ degree g live' i + count i (g.node x).successors
degree_close g live live' x i lt was now same =
    let at =
      total_at g.size x (live_edges g live i) (live_edges g live' i) lt
        (λ p l ne. ap_open p (same p ne)) in
    ground (arith, at)
  where
    ap_open : (p : ℕ) → live p ≡ live' p → live_edges g live i p ≡ live_edges g live' i p
    ap_open p e = ground arith

pub degree_ext :
    (g : Graph) (live live' : ℕ → Bool) (i : ℕ)
    → ((p : ℕ) → p < g.size → live p ≡ live' p)
    → degree g live i ≡ degree g live' i
degree_ext g live live' i same =
    total_ext g.size (live_edges g live i) (live_edges g live' i) (λ p l. at p (same p l))
  where
    at : (p : ℕ) → live p ≡ live' p → live_edges g live i p ≡ live_edges g live' i p
    at p e = ground arith

-- A job with live edges has an live predecessor.
pub degree_pos :
    (g : Graph) (live : ℕ → Bool) (i : ℕ)
    → 0 < degree g live i
    → (p : ℕ) × (p < g.size) × (live p ≡ true) × Edge g p i
degree_pos g live i h =
    let (p, lt, pos) = total_pos g.size (live_edges g live i) h in
    (p, lt, ground arith, ground arith)

-- A job with no live edges has only closed predecessors.
pub degree_zero :
    (g : Graph) (live : ℕ → Bool) (p i : ℕ)
    → degree g live i ≡ 0
    → p < g.size
    → Edge g p i
    → live p ≡ false
degree_zero g live p i zero lt e = ground (arith, le-total g.size p (live_edges g live i) lt)
