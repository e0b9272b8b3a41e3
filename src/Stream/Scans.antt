-- ===== src/Stream/Scans.antt =====
-- The loop of FrameReader::feed goes on where it stopped.
use sub0pipeline.Prelude.{
  ℕ, zero, suc, ◌+◌, ◌≤◌, ◌≡◌, refl, ap, ◌∙◌, ◌⊎◌, inl, inr, true, false, List, ◌∷◌, ◌++◌, arith,
  length, length-append,
}
use sub0pipeline.Wire.{take, drop}
use sub0pipeline.Stream.{
  Front, incomplete, too_long, frame, front, Scanned, cons_frame, at_front, scan,
}
use sub0pipeline.Stream.Cuts.{
  take-prefix, drop-prefix, length-drop, front-frame, front-more, scan-fuel, none_left,
}

abbrev pub prepend : List (List ℕ) → Scanned → Scanned
prepend fs s = record s { frames = fs ++ s.frames }

-- What the loop makes of `xs ++ ys`, from what it made of `xs`.
abbrev pub Continues : ℕ → ℕ → List ℕ → List ℕ → Scanned → Type 0
Continues max f xs ys a =
    ((a.ok ≡ true) × (scan max f (xs ++ ys) ≡ prepend a.frames (scan max f (a.rest ++ ys))))
    ⊎ ((a.ok ≡ false)
        × ((scan max f (xs ++ ys)).ok ≡ false)
        × ((scan max f (xs ++ ys)).frames ≡ a.frames))

-- The bytes that a loop leaves when it comes to its end hold no frame, and are not more than it had.
pub scan-settled :
    (max f : ℕ) (rest : List ℕ)
    → length rest ≤ f
    → ((scan max f rest).ok ≡ true → front max (scan max f rest).rest ≡ incomplete)
      × (length (scan max f rest).rest ≤ length rest)
unfolding scan
scan-settled max zero rest h = (λ e. none_left max rest h, omega arith)
scan-settled max (suc f) rest h =
    by_front (λ rest' l. scan-settled max f rest' l) (front max rest) refl
  where
    by_front :
        ((rest' : List ℕ)
          → length rest' ≤ f
          → ((scan max f rest').ok ≡ true → front max (scan max f rest').rest ≡ incomplete)
            × (length (scan max f rest').rest ≤ length rest'))
        → (d : Front) → front max rest ≡ d
        → ((at_front d (scan max f) rest).ok ≡ true
            → front max (at_front d (scan max f) rest).rest ≡ incomplete)
          × (length (at_front d (scan max f) rest).rest ≤ length rest)
    by_front again incomplete e = (λ t. e, omega arith)
    by_front again too_long e = (λ t. ground (arith, t), omega arith)
    by_front again (frame n) e =
        let (five, inside) = front-frame max rest n e in
        let left = length-drop n rest inside in
        let (calm, less) = again (drop n rest) (omega (arith, five, left, h)) in
        (calm, omega (arith, left, less))

pub scan-Continues :
    (max f : ℕ) (xs ys : List ℕ) → length xs + length ys ≤ f → Continues max f xs ys (scan max f xs)
unfolding scan
scan-Continues max zero xs ys h = inl (refl, refl)
scan-Continues max (suc f) xs ys h =
    by_front (λ xs' l. scan-Continues max f xs' ys l) (front max xs) refl (front-more max xs ys)
  where
    round_lem :
        (n : ℕ)
        → n ≤ length xs
        → front max (xs ++ ys) ≡ frame n
        → scan max (suc f) (xs ++ ys) ≡ cons_frame (take n xs) (scan max f (drop n xs ++ ys))
    round_lem n inside e =
        ap (λ d. at_front d (scan max f) (xs ++ ys)) e
        ∙ ap (λ t. cons_frame t (scan max f (drop n (xs ++ ys)))) (take-prefix n xs ys inside)
        ∙ ap (λ t. cons_frame (take n xs) (scan max f t)) (drop-prefix n xs ys inside)

    by_front :
        ((xs' : List ℕ) → length xs' + length ys ≤ f → Continues max f xs' ys (scan max f xs'))
        → (d : Front) → front max xs ≡ d
        → (front max xs ≡ incomplete) ⊎ (front max (xs ++ ys) ≡ front max xs)
        → Continues max (suc f) xs ys (at_front d (scan max f) xs)
    by_front again incomplete e more = inl (refl, refl)
    by_front again too_long e (inl short) = absurd (ground (arith, e, short))
    by_front again too_long e (inr same) = inr (
      refl,
      ap (λ d. (at_front d (scan max f) (xs ++ ys)).ok) (same ∙ e),
      ap (λ d. (at_front d (scan max f) (xs ++ ys)).frames) (same ∙ e),
    )
    by_front again (frame n) e (inl short) = absurd (ground (arith, e, short))
    by_front again (frame n) e (inr same) =
        let (five, inside) = front-frame max xs n e in
        let left = length-drop n xs inside in
        let step = round_lem n inside (same ∙ e) in
        let less = (scan-settled max f (drop n xs) (omega (arith, five, left, h))).1 in
        elim (again (drop n xs) (omega (arith, five, left, h))) [
          | inl (ok, eq) ↦ inl (
            ok,
            step
                ∙ ap (cons_frame (take n xs)) eq
                ∙ ap (λ s. prepend (take n xs ∷ (scan max f (drop n xs)).frames) s)
                    (scan-fuel max f (suc f) ((scan max f (drop n xs)).rest ++ ys)
                      (omega (
                        arith,
                        five,
                        left,
                        h,
                        less,
                        length-append (scan max f (drop n xs)).rest ys,
                      ))
                      (omega (
                        arith,
                        five,
                        left,
                        h,
                        less,
                        length-append (scan max f (drop n xs)).rest ys,
                      ))),
          )
          | inr (stop, bad, same_frames) ↦ inr (
            stop,
            ap (λ s. s.ok) step ∙ bad,
            ap (λ s. s.frames) step ∙ ap (◌∷◌ (take n xs)) same_frames,
          )
        ]
