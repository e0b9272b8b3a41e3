-- ===== src/Stream/Chunks.antt =====
-- The frames of a stream do not depend on how the stream is cut into chunks.
use mathlib.Core.Path.{subst}
use mathlib.Core.List.{append_assoc, append-nil}
use sub0pipeline.Prelude.{
  ℕ, zero, suc, ◌+◌, ◌≤◌, ◌≡◌, refl, sym, ap, ◌∙◌, ◌⊎◌, inl, inr, true, false, List, [], ◌∷◌, ◌++◌,
  arith, if◌then◌else◌, length, length-append,
}
use sub0pipeline.Stream.{FrameReader, Fed, feed, incomplete, front, Scanned, at_front, scan}
use sub0pipeline.Stream.Cuts.{scan-fuel}
use sub0pipeline.Stream.Scans.{prepend, Continues, scan-settled, scan-Continues}

abbrev pub concat : List (List ℕ) → List ℕ
concat [] = []
concat (c ∷ cs) = c ++ concat cs

-- A transport that receives chunks: it stops at the first answer false.
abbrev pub feed_all : List (List ℕ) → FrameReader → Fed
feed_all [] r = record { ok = true; frames = []; reader = r }
feed_all (c ∷ cs) r =
    let a = feed c r in
    let rest = feed_all cs a.reader in
    if a.ok then record rest { frames = a.frames ++ rest.frames } else a

-- The loop has come to its end on what is in the buffer.
abbrev pub Settled : FrameReader → Type 0
Settled r = front r.max_body_bytes r.buffer ≡ incomplete

pub settled_scan :
    (max f : ℕ) (rest : List ℕ)
    → front max rest ≡ incomplete
    → scan max f rest ≡ record { frames = []; rest = rest; ok = true }
unfolding scan
settled_scan max zero rest e = refl
settled_scan max (suc f) rest e = ap (λ d. at_front d (scan max f) rest) e

abbrev fed_from : FrameReader → List ℕ → Scanned → Fed
fed_from r buffer s = record {
  ok = s.ok;
  frames = s.frames;
  reader = record r { buffer = if s.ok then s.rest else buffer };
}

feed-nil : (r : FrameReader) → Settled r → feed [] r ≡ record { ok = true; frames = []; reader = r }
unfolding feed
feed-nil r e =
    ap (λ b. fed_from r b (scan r.max_body_bytes (length b) b)) (append-nil r.buffer)
    ∙ ap (fed_from r r.buffer) (settled_scan r.max_body_bytes (length r.buffer) r.buffer e)

-- The whole answer agrees with the answer for the rest of the stream.
abbrev Agrees : Fed → List (List ℕ) → Fed → Type 0
Agrees whole before rest =
    (whole.ok ≡ rest.ok)
    × (whole.frames ≡ before ++ rest.frames)
    × (rest.ok ≡ true → whole.reader ≡ rest.reader)

feed-Settled : (c : List ℕ) (r : FrameReader) → (feed c r).ok ≡ true → Settled (feed c r).reader
unfolding feed
feed-Settled c r e =
    let x = r.buffer ++ c in
    let s = scan r.max_body_bytes (length x) x in
    ap (λ b. front r.max_body_bytes (if b then s.rest else x)) e
    ∙ (scan-settled r.max_body_bytes (length x) x (omega arith)).0 e

feed-append :
    (c ys : List ℕ) (r : FrameReader)
    → (((feed c r).ok ≡ true)
        × Agrees (feed (c ++ ys) r) (feed c r).frames (feed ys (feed c r).reader))
      ⊎ (((feed c r).ok ≡ false)
          × ((feed (c ++ ys) r).ok ≡ false)
          × ((feed (c ++ ys) r).frames ≡ (feed c r).frames))
unfolding feed
feed-append c ys r = elim (continues) [
  | inl (ok, eq) ↦
      let total =
        whole ∙ eq ∙ ap (prepend s.frames) (refuel (length (s.rest ++ ys)) (omega arith)) in
      inl (
        ok,
        subst (λ q. Agrees (feed (c ++ ys) r) s.frames (feed ys q)) (sym (reader_after ok))
            (ap (λ t. t.ok) total, ap (λ t. t.frames) total, λ good. reader_eq total good),
      )
  | inr (stop, bad, same) ↦ inr (stop, ap (λ t. t.ok) whole ∙ bad, ap (λ t. t.frames) whole ∙ same)
]
  where
    max : ℕ
    max = r.max_body_bytes

    x : List ℕ
    x = r.buffer ++ c

    s : Scanned
    s = scan max (length x) x

    f : ℕ
    f = length x + length ys

    whole : scan max (length (r.buffer ++ (c ++ ys))) (r.buffer ++ (c ++ ys)) ≡ scan max f (x ++ ys)
    whole =
        ap (λ t. scan max (length t) t) (sym (append_assoc r.buffer c ys))
        ∙ ap (λ n. scan max n (x ++ ys)) (length-append x ys)

    continues : Continues max f x ys s
    continues =
        subst (Continues max f x ys) (scan-fuel max f (length x) x (omega arith) (omega arith))
          (scan-Continues max f x ys (omega arith))

    refuel :
        (n : ℕ) → length (s.rest ++ ys) ≤ n → scan max f (s.rest ++ ys) ≡ scan max n (s.rest ++ ys)
    refuel n h =
        scan-fuel max f n (s.rest ++ ys)
          (omega (arith, length-append s.rest ys, (scan-settled max (length x) x (omega arith)).1))
          h

    reader_after : s.ok ≡ true → (feed c r).reader ≡ record r { buffer = s.rest }
    reader_after ok = ap (λ b. record r { buffer = if b then s.rest else x }) ok

    reader_eq :
        scan max (length (r.buffer ++ (c ++ ys))) (r.buffer ++ (c ++ ys))
          ≡ prepend s.frames (scan max (length (s.rest ++ ys)) (s.rest ++ ys))
        → (scan max (length (s.rest ++ ys)) (s.rest ++ ys)).ok ≡ true
        → (feed (c ++ ys) r).reader ≡ (feed ys (record r { buffer = s.rest })).reader
    reader_eq total good =
        ap (λ t. record r { buffer = if t.ok then t.rest else r.buffer ++ (c ++ ys) }) total
        ∙ ap
            (λ b. record r {
              buffer =
                  if b
                  then (scan max (length (s.rest ++ ys)) (s.rest ++ ys)).rest
                  else r.buffer ++ (c ++ ys);
            })
            good
        ∙ sym (
            ap
              (λ b. record r {
                buffer =
                    if b
                    then (scan max (length (s.rest ++ ys)) (s.rest ++ ys)).rest
                    else s.rest ++ ys;
              })
              good)

-- Two answers with the same frames, which leave the same reader if they are true.
abbrev pub Same : Fed → Fed → Type 0
Same a b = (a.ok ≡ b.ok) × (a.frames ≡ b.frames) × (a.ok ≡ true → a.reader ≡ b.reader)

-- A reader without bytes is settled.
pub empty-Settled : (max : ℕ) → Settled (record { max_body_bytes = max; buffer = [] })
unfolding front
empty-Settled max = refl

-- However a stream is cut into chunks, a settled FrameReader passes the same frames on and
-- gives the same answer as for the whole stream at once, and if the answer is true it is left
-- in the same state.
pub feed_all-concat :
    (chunks : List (List ℕ)) (r : FrameReader)
    → Settled r
    → Same (feed_all chunks r) (feed (concat chunks) r)
feed_all-concat [] r settled =
    let e = sym (feed-nil r settled) in
    (ap (λ t. t.ok) e, ap (λ t. t.frames) e, λ good. ap (λ t. t.reader) e)
feed_all-concat (c ∷ cs) r settled = elim (feed-append c (concat cs) r) [
  | inl (ok, (e_ok, e_frames, e_reader)) ↦
      let (h_ok, h_frames, h_reader) = feed_all-concat cs (feed c r).reader (feed-Settled c r ok) in
      subst (λ b. Same (if b then joined else feed c r) (feed (c ++ concat cs) r)) (sym ok)
        (
          h_ok ∙ sym e_ok,
          ap (◌++◌ (feed c r).frames) h_frames ∙ sym e_frames,
          λ good. h_reader good ∙ sym (e_reader (sym h_ok ∙ good)),
        )
  | inr (stop, bad, same) ↦
      subst (λ b. Same (if b then joined else feed c r) (feed (c ++ concat cs) r)) (sym stop)
        (stop ∙ sym bad, sym same, λ good. absurd (ground (arith, good, stop)))
]
  where
    joined : Fed
    joined = record (feed_all cs (feed c r).reader) {
      frames = (feed c r).frames ++ (feed_all cs (feed c r).reader).frames;
    }
