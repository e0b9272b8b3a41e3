-- ===== src/Chunked/Buffers.antt =====
-- Chunks that are copied into a buffer, and what one chunk makes of a stream.
use sub0pipeline.Prelude.{
  ℕ, zero, suc, ◌+◌, ◌-◌, ◌%◌, ◌^◌, ◌≤◌, ◌<◌, ◌≡◌, refl, ap, ◌∙◌, ◌⊎◌, inl, inr, Bool, true, ◌&&◌,
  none, some, List, [], ◌∷◌, ltb, leb, ◌==◌, length, arith, Bool-cases,
}
use sub0pipeline.Wire.{take, drop}
use sub0pipeline.Chunked.{Partial, nth, copy_to, bytes_of, Received, partial_of, take_chunk}

pub bytes_of-nth :
    (xs : List ℕ) (f : ℕ → ℕ)
    → ((i : ℕ) → i < length xs → f i ≡ nth xs i)
    → bytes_of (length xs) f ≡ xs
bytes_of-nth [] f h = refl
bytes_of-nth (x ∷ xs) f h =
    cc (h 0 (omega arith), bytes_of-nth xs (λ i. f (suc i)) (λ i l. h (suc i) (omega arith)))

pub length-take-drop : (k o : ℕ) (xs : List ℕ) → o + k ≤ length xs → length (take k (drop o xs)) ≡ k
length-take-drop zero zero xs h = refl
length-take-drop (suc k) zero [] h = absurd (omega arith)
length-take-drop (suc k) zero (x ∷ xs) h = ap suc (length-take-drop k zero xs (omega arith))
length-take-drop k (suc o) [] h = absurd (omega arith)
length-take-drop k (suc o) (x ∷ xs) h = length-take-drop k o xs (omega arith)

nth-take : (k : ℕ) (xs : List ℕ) (i : ℕ) → i < k → nth (take k xs) i ≡ nth xs i
nth-take zero xs i h = absurd (omega arith)
nth-take (suc k) [] i h = refl
nth-take (suc k) (x ∷ xs) zero h = refl
nth-take (suc k) (x ∷ xs) (suc i) h = nth-take k xs i (omega arith)

nth-drop : (o : ℕ) (xs : List ℕ) (i j : ℕ) → j ≡ o + i → nth (drop o xs) i ≡ nth xs j
nth-drop zero xs i j e = ap (nth xs) (omega (arith, e))
nth-drop (suc o) [] i j e = refl
nth-drop (suc o) (x ∷ xs) i zero e = absurd (omega (arith, e))
nth-drop (suc o) (x ∷ xs) i (suc j) e = nth-drop o xs i j (omega (arith, e))

-- What the buffer of a stream holds once `bytes` are there up to `offset`.
pub data Ready (bytes : List ℕ) (offset : ℕ) (r : Received) : Type 0 where
  nothing_yet : offset ≡ 0 → r.0 ≡ none → Ready bytes offset r
  some_bytes :
      (p : Partial)
      → r.0 ≡ some p
      → p.total ≡ length bytes
      → p.received ≡ offset
      → ((j : ℕ) → j < offset → p.storage j ≡ nth bytes j)
      → Ready bytes offset r

copied :
    (bytes : List ℕ) (offset k : ℕ) (storage : ℕ → ℕ)
    → offset + k ≤ length bytes
    → ((j : ℕ) → j < offset → storage j ≡ nth bytes j)
    → (j : ℕ) → j < offset + k
    → copy_to offset (take k (drop offset bytes)) storage j ≡ nth bytes j
copied bytes offset k storage h old j l = elim (Bool-cases (leb offset j)) [
  | inl new ↦
      let inside : j - offset < k = ground (arith, new) in
      ground (
        arith,
        new,
        length-take-drop k offset bytes h,
        nth-take k (drop offset bytes) (j - offset) inside,
        nth-drop offset bytes (j - offset) j (ground (arith, new)),
      )
  | inr before ↦ ground (arith, before, old j)
]

take-all : (xs : List ℕ) → take (length xs) xs ≡ xs
take-all [] = refl
take-all (x ∷ xs) = ap (◌∷◌ x) (take-all xs)

-- The buffer that a chunk is copied into.
record Started (fresh : ℕ → ℕ) (bytes : List ℕ) (offset : ℕ) (r : Received) : Type 0 where
  total : (partial_of fresh (length bytes) r.0).total ≡ length bytes
  received : (partial_of fresh (length bytes) r.0).received ≡ offset
  same : (j : ℕ) → j < offset → (partial_of fresh (length bytes) r.0).storage j ≡ nth bytes j

Ready-Started :
    (fresh : ℕ → ℕ) (bytes : List ℕ) (offset : ℕ) (r : Received)
    → Ready bytes offset r
    → Started fresh bytes offset r
Ready-Started fresh bytes offset r (nothing_yet zero_yet none_there) = record {
  total = ground (arith, none_there);
  received = ground (arith, none_there, zero_yet);
  same = λ j l. absurd (omega (arith, zero_yet, l));
}
Ready-Started fresh bytes offset r (some_bytes p there total received same) = record {
  total = ground (arith, there, total);
  received = ground (arith, there, received);
  same = λ j l. ground (arith, there, same j l);
}

-- A chunk that is not the last extends what is there; the last one completes the payload.
pub take_chunk-Ready :
    (fresh : ℕ → ℕ) (owner : Bool) (bytes : List ℕ) (offset k : ℕ) (r : Received)
    → length bytes < 2 ^ 64
    → offset + k ≤ length bytes
    → Ready bytes offset r
    → ((offset + k < length bytes)
        × Ready bytes
            (offset + k)
            (take_chunk fresh owner (length bytes) offset (take k (drop offset bytes)) r))
      ⊎ ((offset + k ≡ length bytes)
          × ((take_chunk fresh owner (length bytes) offset (take k (drop offset bytes)) r).1
              ≡ some bytes))
unfolding take_chunk
take_chunk-Ready fresh owner bytes offset k r small h ready =
    elim (Bool-cases ((offset == 0) && ((length chunk == length bytes) && owner))) [
      | inl whole ↦ inr (ground (arith, whole, size), ground (arith, whole, size, take_whole whole))
      | inr part ↦ elim (Bool-cases (ltb (offset + k) (length bytes))) [
        | inl more ↦ inl (
          ground (arith, more),
          some_bytes
              (record {
                storage = storage;
                total = p.total;
                received = (p.received + length chunk) % 2 ^ 64;
              })
              (ground (arith, part, more, started.total, started.received, size)) started.total
              (ground (arith, started.received, size))
              (copied bytes offset k p.storage h started.same),
        )
        | inr last ↦ inr (
          ground (arith, last),
          ground (
            arith,
            part,
            last,
            started.total,
            started.received,
            size,
            complete (ground (arith, last)),
          ),
        )
      ]
    ]
  where
    chunk : List ℕ
    chunk = take k (drop offset bytes)

    size : length chunk ≡ k
    size = length-take-drop k offset bytes h

    p : Partial
    p = partial_of fresh (length bytes) r.0

    started : Started fresh bytes offset r
    started = Ready-Started fresh bytes offset r ready

    storage : ℕ → ℕ
    storage = copy_to offset chunk p.storage

    complete : offset + k ≡ length bytes → bytes_of (length bytes) storage ≡ bytes
    complete e =
        bytes_of-nth bytes storage
          (λ j l. copied bytes offset k p.storage h started.same j (omega (arith, e, l)))

    take_whole : ((offset == 0) && ((length chunk == length bytes) && owner)) ≡ true → chunk ≡ bytes
    take_whole whole =
        let all : k ≡ length bytes = ground (arith, whole, size) in
        let first : offset ≡ 0 = ground (arith, whole) in
        ap (λ n. take n (drop offset bytes)) all
        ∙ ap (λ n. take (length bytes) (drop n bytes)) first
        ∙ take-all bytes
