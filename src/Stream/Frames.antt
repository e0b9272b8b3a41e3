-- ===== src/Stream/Frames.antt =====
-- A stream of frames that a writer finished is cut into these frames.
use sub0pipeline.Prelude.{
  ℕ, zero, suc, ◌+◌, ◌^◌, ◌≤◌, ◌<◌, ◌≡◌, refl, ap, ◌∙◌, true, List, [], ◌∷◌, ◌++◌, arith,
  if◌then◌else◌, length, length-append,
}
use sub0pipeline.Wire.{FrameType, type_byte, finish, take, drop, join, little}
use sub0pipeline.Wire.Reads.{length-little, join-little, take-append, drop-append}
use sub0pipeline.Stream.{FrameReader, feed, frame, front, cons_frame, at_front, scan}
use sub0pipeline.Stream.Chunks.{concat, feed_all, feed_all-concat, settled_scan}

-- Frames of Writer::finish whose bodies the reader accepts.
pub data Framed (max : ℕ) : List (List ℕ) → Type 0 where
  none_framed : Framed max []
  one_framed :
      {fs : List (List ℕ)} (type : FrameType) (body : List ℕ)
      → length body ≤ max
      → length body < 2 ^ 32
      → Framed max fs
      → Framed max (finish type body ∷ fs)

length-finish : (type : FrameType) (body : List ℕ) → length (finish type body) ≡ 5 + length body
unfolding finish
length-finish type body = ground (
  arith,
  length-append (little 4 (length body)) (type_byte type ∷ body),
  length-little 4 (length body),
)

take-finish :
    (type : FrameType) (body ys : List ℕ) → take 4 (finish type body ++ ys) ≡ little 4 (length body)
unfolding finish little
take-finish type body ys = refl

front-finish :
    (max : ℕ) (type : FrameType) (body ys : List ℕ)
    → length body ≤ max
    → length body < 2 ^ 32
    → front max (finish type body ++ ys) ≡ frame (length (finish type body))
unfolding front
front-finish max type body ys h short = ground (
  arith,
  ap join (take-finish type body ys),
  join-little 4 (length body) (omega (arith, short)),
  length-finish type body,
  length-append (finish type body) ys,
  h,
)

scan-Framed :
    (max f : ℕ) (fs : List (List ℕ))
    → Framed max fs
    → length (concat fs) ≤ f
    → scan max f (concat fs) ≡ record { frames = fs; rest = []; ok = true }
unfolding scan front
scan-Framed max f _ none_framed h = settled_scan max f [] refl
scan-Framed max zero _ (one_framed {fs} type body small short more) h =
    absurd (omega (arith, h, length-append (finish type body) (concat fs), length-finish type body))
scan-Framed max (suc f) _ (one_framed {fs} type body small short more) h =
    ap (λ d. at_front d (scan max f) (finish type body ++ concat fs))
      (front-finish max type body (concat fs) small short)
    ∙ ap
        (λ t.
          cons_frame t
            (scan max f (drop (length (finish type body)) (finish type body ++ concat fs))))
        (take-append (finish type body) (concat fs))
    ∙ ap (λ t. cons_frame (finish type body) (scan max f t))
        (drop-append (finish type body) (concat fs))
    ∙ ap (cons_frame (finish type body)) (
        scan-Framed max f fs more
          (omega (arith, h, length-append (finish type body) (concat fs), length-finish type body)))

-- A FrameReader with an empty buffer that receives finished frames, none with a body over its
-- limit or of 2^32 bytes, in chunks of any sizes passes exactly these frames on, in order,
-- answers true, and is left with an empty buffer.
pub feed_all-Framed :
    (max : ℕ) (fs chunks : List (List ℕ))
    → Framed max fs
    → concat chunks ≡ concat fs
    → ((feed_all chunks (record { max_body_bytes = max; buffer = [] })).ok ≡ true)
      × ((feed_all chunks (record { max_body_bytes = max; buffer = [] })).frames ≡ fs)
      × ((feed_all chunks (record { max_body_bytes = max; buffer = [] })).reader
          ≡ record { max_body_bytes = max; buffer = [] })
unfolding feed front
feed_all-Framed max fs chunks framed e =
    let (same_ok, same_frames, same_reader) = feed_all-concat chunks empty refl in
    let good = same_ok ∙ ap (λ t. t.ok) once in
    (good, same_frames ∙ ap (λ t. t.frames) once, same_reader good ∙ reader_eq)
  where
    empty : FrameReader
    empty = record { max_body_bytes = max; buffer = [] }

    once :
        scan max (length (concat chunks)) (concat chunks)
        ≡ record { frames = fs; rest = []; ok = true }
    once =
        ap (λ t. scan max (length t) t) e
        ∙ scan-Framed max (length (concat fs)) fs framed (omega arith)

    reader_eq : (feed (concat chunks) empty).reader ≡ empty
    reader_eq = ap (λ t. record empty { buffer = if t.ok then t.rest else concat chunks }) once
