-- ===== src/TickLoop/Gaps.antt =====
-- The calls of one job of a TickLoop keep their distance.
use mathlib.Core.Path.{subst}
use sub0pipeline.Prelude.{
  ℕ, zero, suc, ◌+◌, ◌*◌, ◌≤◌, ◌<◌, ◌≡◌, refl, sym, ap, ◌∙◌, ◌⊎◌, inl, inr, false, Option, none,
  some, List, [], ◌∷◌, ◌++◌, arith, leb, ◌==◌, if◌then◌else◌, Bool-cases,
}
use sub0pipeline.TickLoop.{Ticking, Observation, Call, elapsed, pass, run}

-- The calls of job `i`.
abbrev pub calls_of : ℕ → List (ℕ × Call) → List Call
calls_of i [] = []
calls_of i ((k, c) ∷ rest) = if k == i then c ∷ calls_of i rest else calls_of i rest

-- Each call comes in a pass that starts at least `gap` after the pass of the call before it, and no
-- earlier than that call is made; the call itself is made at the start of its pass or later. The first
-- pass is at least `gap` after `from`, and no earlier than `made`.
abbrev pub Apart : ℕ → ℕ → ℕ → List Call → Type 0
Apart gap from made [] = Unit {0}
Apart gap from made (c ∷ cs) =
    (from + gap ≤ c.stamp)
    × (made ≤ c.stamp)
    × (c.stamp ≤ c.entered)
    × Apart gap c.stamp c.entered cs

-- The clock does not go back.
abbrev pub Steady : ℕ → List Observation → Type 0
Steady from [] = Unit {0}
Steady from (o ∷ os) =
    (from ≤ o.now) × ((j : ℕ) → (o.now ≤ o.reaches j) × (o.reaches j ≤ o.over)) × Steady o.over os

abbrev pub tick_at : ℕ → List Ticking → Option Ticking
tick_at i [] = none
tick_at zero (t ∷ ts) = some t
tick_at (suc i) (t ∷ ts) = tick_at i ts

abbrev call_at : Observation → ℕ → Call
call_at o i = record { entered = o.reaches i; stamp = o.now }

calls_of-append :
    (i : ℕ) (xs ys : List (ℕ × Call)) → calls_of i (xs ++ ys) ≡ calls_of i xs ++ calls_of i ys
calls_of-append i [] ys = refl
calls_of-append i ((k, c) ∷ xs) ys = elim (Bool-cases (k == i)) [
  | inl here ↦ ground (arith, here, calls_of-append i xs ys)
  | inr there ↦ ground (arith, there, calls_of-append i xs ys)
]

-- A pass from index `k` on makes no call of a job before `k`.
pass-earlier :
    (o : Observation) (k i : ℕ) (ts : List Ticking) → i < k → calls_of i (pass o k ts).0 ≡ []
unfolding pass
pass-earlier o k i [] lt = refl
pass-earlier o k i (t ∷ ts) lt = ground (arith, pass-earlier o (k + 1) i ts (omega arith), lt)

-- What a pass does to one job: it calls it once if it is due, and else leaves it.
pass-cases :
    (o : Observation) (k i : ℕ) (ts : List Ticking) (t : Ticking)
    → tick_at i ts ≡ some t
    → ((t.interval ≤ elapsed o.now t.last_run)
        × (calls_of (k + i) (pass o k ts).0 ≡ call_at o (k + i) ∷ [])
        × (tick_at i (pass o k ts).1 ≡ some (record t { last_run = o.now })))
      ⊎ ((elapsed o.now t.last_run < t.interval)
          × (calls_of (k + i) (pass o k ts).0 ≡ [])
          × (tick_at i (pass o k ts).1 ≡ some t))
unfolding pass
pass-cases o k i [] t e = absurd (ground (arith, e))
pass-cases o k zero (u ∷ ts) t e =
    let same : u ≡ t = ground (arith, e) in
    let later = pass-earlier o (k + 1) k ts (omega arith) in
    elim (Bool-cases (leb u.interval (elapsed o.now u.last_run))) [
      | inl due ↦
          inl (ground (arith, due, same), ground (arith, due, later), ground (arith, due, same))
      | inr early ↦
          inr
            (ground (arith, early, same), ground (arith, early, later), ground (arith, early, same))
    ]
pass-cases o k (suc i) (u ∷ ts) t e =
    let next : k + suc i ≡ k + 1 + i = omega arith in
    elim (Bool-cases (leb u.interval (elapsed o.now u.last_run))) [
      | inl due ↦ elim (pass-cases o (k + 1) i ts t (ground (arith, e))) [
        | inl (a, b, c) ↦ inl (a, ground (arith, due, next, b), ground (arith, due, c))
        | inr (a, b, c) ↦ inr (a, ground (arith, due, next, b), ground (arith, due, c))
      ]
      | inr early ↦ elim (pass-cases o (k + 1) i ts t (ground (arith, e))) [
        | inl (a, b, c) ↦ inl (a, ground (arith, early, next, b), ground (arith, early, c))
        | inr (a, b, c) ↦ inr (a, ground (arith, early, next, b), ground (arith, early, c))
      ]
    ]

-- What one job sees of the first pass of a run.
run-cases :
    (o : Observation) (os : List Observation) (ts : List Ticking) (i : ℕ) (here : List Call)
    → calls_of (0 + i) (pass o 0 ts).0 ≡ here
    → (calls_of i (run (o ∷ os) ts) ≡ [])
      ⊎ (calls_of i (run (o ∷ os) ts) ≡ here)
      ⊎ (calls_of i (run (o ∷ os) ts) ≡ here ++ calls_of i (run os (pass o 0 ts).1))
unfolding run
run-cases o os ts i here e =
    let first : calls_of i (pass o 0 ts).0 ≡ here =
      ap (λ j. calls_of j (pass o 0 ts).0) (omega arith) ∙ e in
    elim (Bool-cases o.stop_before) [
      | inl stop ↦ inl (ground (arith, stop))
      | inr go ↦ elim (Bool-cases o.stop_after) [
        | inl stop ↦ inr (inl (ground (arith, go, stop, first)))
        | inr on ↦ inr (
            inr (
              ground
                (arith, go, on, first, calls_of-append i (pass o 0 ts).0 (run os (pass o 0 ts).1))))
      ]
    ]

-- On a clock that does not go back, two passes that call a job of a TickLoop one after the
-- other read the clock at least its interval apart, and the first that calls it reads it at
-- least its interval after the last run that it starts with; each call is made when its pass
-- has read the clock or later, and no later than the pass of the next call of the job reads it.
pub run-Apart :
    (os : List Observation) (ts : List Ticking) (i from made : ℕ) (t : Ticking)
    → tick_at i ts ≡ some t
    → t.last_run ≤ from
    → made ≤ from
    → Steady from os
    → Apart (t.interval * 1000000) t.last_run made (calls_of i (run os ts))
unfolding run
run-Apart [] ts i from made t e le old steady = tt
run-Apart (o ∷ os) ts i from made t e le old steady =
    let gap = t.interval * 1000000 in
    let after = (pass o 0 ts).1 in
    let here_at = steady.1 i in
    elim (pass-cases o 0 i ts t e) [
      | inl (due, here, there) ↦
          let far : t.last_run + gap ≤ o.now = omega (arith, due, steady.0, le) in
          let late : made ≤ o.now = omega (arith, old, steady.0) in
          let rest =
            run-Apart os after i o.over (o.reaches i) (record t { last_run = o.now }) there
              (omega (arith, here_at)) (omega (arith, here_at)) steady.2 in
          let mine : calls_of (0 + i) (pass o 0 ts).0 ≡ call_at o i ∷ [] =
            here ∙ ap (λ j. call_at o j ∷ []) (omega arith) in
          elim (run-cases o os ts i (call_at o i ∷ []) mine) [
            | inl none_here ↦ subst (Apart gap t.last_run made) (sym none_here) tt
            | inr (inl only) ↦
                subst (Apart gap t.last_run made) (sym only) (far, late, here_at.0, tt)
            | inr (inr both) ↦
                subst (Apart gap t.last_run made) (sym both) (far, late, here_at.0, rest)
          ]
      | inr (early, here, there) ↦
          let rest =
            run-Apart os after i o.over made t there (omega (arith, le, steady.0, here_at))
              (omega (arith, old, steady.0, here_at)) steady.2 in
          elim (run-cases o os ts i [] here) [
            | inl none_here ↦ subst (Apart gap t.last_run made) (sym none_here) tt
            | inr (inl only) ↦ subst (Apart gap t.last_run made) (sym only) tt
            | inr (inr both) ↦ subst (Apart gap t.last_run made) (sym both) rest
          ]
    ]

-- On the first pass of a run a job is called exactly if its interval is no longer than the time
-- since the clock's epoch, and the call is made when the loop comes to the job.
pub run_first :
    (o : Observation) (ts : List Ticking) (i : ℕ) (t : Ticking)
    → tick_at i ts ≡ some t
    → t.last_run ≡ 0
    → o.stop_before ≡ false
    → calls_of i (run (o ∷ []) ts) ≡ (
        if leb (t.interval * 1000000) o.now
        then record { entered = o.reaches i; stamp = o.now } ∷ []
        else [])
unfolding run
run_first o ts i t e new go = elim (pass-cases o 0 i ts t e) [
  | inl (due, here, there) ↦
      elim (run-cases o [] ts i (call_at o i ∷ [])
        (here ∙ ap (λ j. call_at o j ∷ []) (omega arith))) [
          | inl none_here ↦
              ground (arith, due, new, go, here, none_here, calls_of-append i (pass o 0 ts).0 [])
          | inr (inl only) ↦ ground (arith, due, new, only)
          | inr (inr both) ↦ ground (arith, due, new, both)
        ]
  | inr (early, here, there) ↦ elim (run-cases o [] ts i [] here) [
    | inl none_here ↦ ground (arith, early, new, none_here)
    | inr (inl only) ↦ ground (arith, early, new, only)
    | inr (inr both) ↦ ground (arith, early, new, both)
  ]
]
