-- ===== src/Stream/Cuts.antt =====
-- The loop of FrameReader::feed on a prefix of the bytes, and on the bytes that it leaves.
use sub0pipeline.Prelude.{
  ℕ, zero, suc, ◌+◌, ◌≤◌, ◌≡◌, refl, sym, ap, ◌⊎◌, inl, inr, true, List, [], ◌∷◌, ◌++◌, arith, ltb,
  length, length-append, Bool-cases,
}
use sub0pipeline.Wire.{take, drop, join}
use sub0pipeline.Stream.{
  Front, incomplete, too_long, frame, front, Scanned, cons_frame, at_front, scan, header_bytes,
}

abbrev pub nothing_more : List ℕ → Scanned
nothing_more rest = record { frames = []; rest = rest; ok = true }

pub take-prefix : (n : ℕ) (xs ys : List ℕ) → n ≤ length xs → take n (xs ++ ys) ≡ take n xs
take-prefix zero xs ys h = refl
take-prefix (suc n) [] ys h = absurd (omega (arith, h))
take-prefix (suc n) (x ∷ xs) ys h = ap (◌∷◌ x) (take-prefix n xs ys (omega (arith, h)))

pub drop-prefix : (n : ℕ) (xs ys : List ℕ) → n ≤ length xs → drop n (xs ++ ys) ≡ drop n xs ++ ys
drop-prefix zero xs ys h = refl
drop-prefix (suc n) [] ys h = absurd (omega (arith, h))
drop-prefix (suc n) (x ∷ xs) ys h = drop-prefix n xs ys (omega (arith, h))

pub length-drop : (n : ℕ) (xs : List ℕ) → n ≤ length xs → n + length (drop n xs) ≡ length xs
length-drop zero xs h = omega arith
length-drop (suc n) [] h = absurd (omega (arith, h))
length-drop (suc n) (x ∷ xs) h = omega (arith, length-drop n xs (omega (arith, h)))

-- A frame at the front has its header, and lies in the buffer.
pub front-frame :
    (max : ℕ) (rest : List ℕ) (n : ℕ)
    → front max rest ≡ frame n
    → (header_bytes ≤ n) × (n ≤ length rest)
unfolding front
front-frame max rest n h = (ground (arith, h), ground (arith, h))

-- Bytes that follow do not change a frame or a refusal at the front.
pub front-more :
    (max : ℕ) (xs ys : List ℕ) → (front max xs ≡ incomplete) ⊎ (front max (xs ++ ys) ≡ front max xs)
unfolding front
front-more max xs ys = elim (Bool-cases (ltb (length xs) header_bytes)) [
  | inl short ↦ inl (ground (arith, short))
  | inr long ↦
      let same : take 4 (xs ++ ys) ≡ take 4 xs = take-prefix 4 xs ys (ground (arith, long)) in
      elim (Bool-cases (ltb (length xs) (header_bytes + join (take 4 xs)))) [
        | inl partial ↦ elim (Bool-cases (ltb max (join (take 4 xs)))) [
          | inl big ↦ inr (ground (arith, long, big, same, length-append xs ys))
          | inr small ↦ inl (ground (arith, long, partial, small))
        ]
        | inr whole ↦ inr (ground (arith, long, whole, same, length-append xs ys))
      ]
]

pub none_left : (max : ℕ) (rest : List ℕ) → length rest ≤ 0 → front max rest ≡ incomplete
unfolding front
none_left max rest h = ground (arith, h)

-- Any fuel that covers the bytes gives the same.
pub scan-fuel :
    (max f f' : ℕ) (rest : List ℕ)
    → length rest ≤ f
    → length rest ≤ f'
    → scan max f rest ≡ scan max f' rest
unfolding scan
scan-fuel max zero zero rest h h' = refl
scan-fuel max zero (suc f') rest h h' =
    sym (ap (λ d. at_front d (scan max f') rest) (none_left max rest h))
scan-fuel max (suc f) zero rest h h' =
    ap (λ d. at_front d (scan max f) rest) (none_left max rest h')
scan-fuel max (suc f) (suc f') rest h h' =
    by_front (λ rest' l l'. scan-fuel max f f' rest' l l') (front max rest) refl
  where
    by_front :
        ((rest' : List ℕ)
          → length rest' ≤ f
          → length rest' ≤ f'
          → scan max f rest' ≡ scan max f' rest')
        → (d : Front) → front max rest ≡ d
        → at_front d (scan max f) rest ≡ at_front d (scan max f') rest
    by_front again incomplete e = refl
    by_front again too_long e = refl
    by_front again (frame n) e =
        let (five, inside) = front-frame max rest n e in
        let left = length-drop n rest inside in
        ap (cons_frame (take n rest))
          (again (drop n rest) (omega (arith, five, left, h)) (omega (arith, five, left, h')))
