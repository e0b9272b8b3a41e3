-- ===== src/Chunked/Delivery.antt =====
-- A payload that is sent in chunks arrives whole, whatever frames of other streams come between.
use mathlib.Core.Path.{subst}
use sub0pipeline.Prelude.{
  ℕ, zero, suc, ◌+◌, ◌-◌, ◌^◌, ◌≤◌, ◌<◌, ◌≡◌, refl, sym, ap, ◌∙◌, ◌≢◌, ◌⊎◌, inl, inr, Bool, true,
  none, some, List, [], ◌∷◌, ltb, length, arith, Bool-cases, Option-cases,
}
use sub0pipeline.Wire.{little}
use sub0pipeline.Wire.Reads.{join-little, length-little}
use sub0pipeline.Chunked.{
  StreamStrategy, min, chunk_frame, chunk_at, Received, take_chunk, Chunk, parse_chunk,
  on_payload_frame, send_chunks, send, receive,
}
use sub0pipeline.Chunked.Buffers.{Ready, nothing_yet, take_chunk-Ready, length-take-drop}

-- What the strategy has of stream `k`.
abbrev pub view : ℕ → StreamStrategy → Received
view k s = (s.partials k, s.complete k)

-- The frame is no chunk of stream `k`.
abbrev pub Foreign : ℕ → List ℕ → Type 0
Foreign k body = (c : Chunk) → parse_chunk body ≡ some c → c.stream ≢ k

-- The frames that arrive, each with whether it has an owner.
pub deliver : (ℕ → ℕ) → List (Bool × List ℕ) → StreamStrategy → StreamStrategy
unfolding on_payload_frame
deliver fresh [] s = s
deliver fresh ((owner, body) ∷ fs) s = deliver fresh fs (on_payload_frame fresh owner body s)

-- The frames `fs` arrive in order, with frames that are no chunks of stream `k` between them.
pub data Interleaving (k : ℕ) : List (List ℕ) → List (Bool × List ℕ) → Type 0 where
  no_more : Interleaving k [] []
  mine :
      {fs : List (List ℕ)} {all : List (Bool × List ℕ)} (owner : Bool) (body : List ℕ)
      → Interleaving k fs all
      → Interleaving k (body ∷ fs) ((owner, body) ∷ all)
  other :
      {fs : List (List ℕ)} {all : List (Bool × List ℕ)} (owner : Bool) (body : List ℕ)
      → Foreign k body
      → Interleaving k fs all
      → Interleaving k fs ((owner, body) ∷ all)

pub parse_chunk-chunk_frame :
    (k total offset : ℕ) (chunk : List ℕ)
    → k < 2 ^ 64
    → total < 2 ^ 64
    → offset + length chunk ≤ total
    → parse_chunk (chunk_frame k total offset chunk)
      ≡ some (record { stream = k; total = total; offset = offset; bytes = chunk })
unfolding parse_chunk chunk_frame little
parse_chunk-chunk_frame k total offset chunk hk ht h =
    let one = join-little 8 k hk in
    let two = join-little 8 total ht in
    let three = join-little 8 offset (omega arith) in ground (arith, one, two, three)

view-mine :
    (fresh : ℕ → ℕ) (owner : Bool) (k total offset : ℕ) (chunk : List ℕ) (s : StreamStrategy)
    → k < 2 ^ 64
    → total < 2 ^ 64
    → offset + length chunk ≤ total
    → view k (on_payload_frame fresh owner (chunk_frame k total offset chunk) s)
      ≡ take_chunk fresh owner total offset chunk (view k s)
unfolding on_payload_frame
view-mine fresh owner k total offset chunk s hk ht h =
    ground (arith, parse_chunk-chunk_frame k total offset chunk hk ht h)

view-other :
    (fresh : ℕ → ℕ) (owner : Bool) (k : ℕ) (body : List ℕ) (s : StreamStrategy)
    → Foreign k body
    → view k (on_payload_frame fresh owner body s) ≡ view k s
unfolding on_payload_frame
view-other fresh owner k body s foreign = elim (Option-cases (parse_chunk body)) [
  | inl none_there ↦ ground (arith, none_there)
  | inr (c, there) ↦ ground (arith, there, foreign c there)
]

deliver-foreign :
    (fresh : ℕ → ℕ) (k : ℕ) (fs : List (List ℕ)) (all : List (Bool × List ℕ)) (s : StreamStrategy)
    → Interleaving k fs all
    → fs ≡ []
    → view k (deliver fresh all s) ≡ view k s
unfolding deliver
deliver-foreign fresh k _ _ s no_more e = refl
deliver-foreign fresh k _ _ s (mine owner body i) e = absurd (ground (arith, e))
deliver-foreign fresh k _ _ s (other {fs} {all} owner body foreign i) e =
    deliver-foreign fresh k fs all (on_payload_frame fresh owner body s) i e
    ∙ view-other fresh owner k body s foreign

-- The bytes that one round sends.
abbrev round : ℕ → List ℕ → ℕ → ℕ
round limit bytes offset = min limit (length bytes - offset)

send_chunks-cases :
    (accepts : ℕ → Bool) (fuel limit k : ℕ) (bytes : List ℕ) (offset : ℕ) (fs : List (List ℕ))
    → send_chunks accepts fuel limit k bytes offset ≡ (fs, true)
    → (fuel' : ℕ) × (rest : List (List ℕ)) × (fs
        ≡ chunk_frame k (length bytes) offset (chunk_at limit offset bytes) ∷ rest)
      × (((offset + round limit bytes offset < length bytes)
            × (send_chunks accepts fuel' limit k bytes (offset + round limit bytes offset)
                ≡ (rest, true)))
          ⊎ ((length bytes ≤ offset + round limit bytes offset) × (rest ≡ [])))
unfolding send_chunks
send_chunks-cases accepts zero limit k bytes offset fs h = absurd (ground (arith, h))
send_chunks-cases accepts (suc fuel) limit k bytes offset fs h =
    elim (Bool-cases (accepts offset)) [
      | inr refused ↦ absurd (ground (arith, h, refused))
      | inl taken ↦ elim (Bool-cases (ltb (offset + round limit bytes offset) (length bytes))) [
        | inl more ↦ (
          fuel,
          (send_chunks accepts fuel limit k bytes (offset + round limit bytes offset)).0,
          ground (arith, h, taken, more),
          inl (ground (arith, more), ground (arith, h, taken, more)),
        )
        | inr last ↦ (fuel, [], ground (arith, h, taken, last), inr (ground (arith, last), refl))
      ]
    ]

module _ (fresh : ℕ → ℕ) (accepts : ℕ → Bool) (k limit : ℕ) (bytes : List ℕ) (hk : k < 2 ^ 64)
    (small : length bytes < 2 ^ 64) where
  chunk_fits :
      (offset : ℕ) → offset ≤ length bytes → offset + round limit bytes offset ≤ length bytes
  chunk_fits offset h = ground arith

  -- The first frame of what is left, and then the others.
  first_chunk :
      (owner : Bool) (offset : ℕ) (body : List ℕ) (s : StreamStrategy)
      → body ≡ chunk_frame k (length bytes) offset (chunk_at limit offset bytes)
      → offset ≤ length bytes
      → Ready bytes offset (view k s)
      → ((offset + round limit bytes offset < length bytes)
          × Ready bytes
              (offset + round limit bytes offset)
              (view k (on_payload_frame fresh owner body s)))
        ⊎ ((offset + round limit bytes offset ≡ length bytes)
            × ((on_payload_frame fresh owner body s).complete k ≡ some bytes))
  first_chunk owner offset body s same h ready =
      let fits = chunk_fits offset h in
      let eq =
        ap (λ f. view k (on_payload_frame fresh owner f s)) same
        ∙ view-mine fresh owner k (length bytes) offset (chunk_at limit offset bytes) s hk small
            (ground (arith, fits, length-take-drop (round limit bytes offset) offset bytes fits)) in
      elim (take_chunk-Ready fresh owner bytes offset (round limit bytes offset) (view k s) small
        fits ready) [
          | inl (more, ready') ↦
              inl (more, subst (Ready bytes (offset + round limit bytes offset)) (sym eq) ready')
          | inr (last, done) ↦ inr (last, ap (λ (r : Received). r.1) eq ∙ done)
        ]

  arrives :
      (fs : List (List ℕ)) (all : List (Bool × List ℕ)) (s : StreamStrategy) (fuel offset : ℕ)
      → Interleaving k fs all
      → send_chunks accepts fuel limit k bytes offset ≡ (fs, true)
      → offset ≤ length bytes
      → Ready bytes offset (view k s)
      → (deliver fresh all s).complete k ≡ some bytes
  unfolding deliver
  arrives _ _ s fuel offset no_more sent h ready =
      let (fuel', rest, e, next) = send_chunks-cases accepts fuel limit k bytes offset [] sent in
      absurd (ground (arith, e))
  arrives _ _ s fuel offset (other {fs} {all} owner body foreign i) sent h ready =
      arrives fs all (on_payload_frame fresh owner body s) fuel offset i sent h
        (subst (Ready bytes offset) (sym (view-other fresh owner k body s foreign)) ready)
  arrives _ _ s fuel offset (mine {fs} {all} owner body i) sent h ready =
      let (fuel', rest, e, next) =
        send_chunks-cases accepts fuel limit k bytes offset (body ∷ fs) sent in
      let same : body ≡ chunk_frame k (length bytes) offset (chunk_at limit offset bytes) = cc e in
      let others : fs ≡ rest = cc e in
      let here = on_payload_frame fresh owner body s in
      elim next [
        | inl (more, sent') ↦ elim (first_chunk owner offset body s same h ready) [
          | inl (more', ready') ↦
              arrives fs all here fuel' (offset + round limit bytes offset) i
                (sent' ∙ ap (λ l. (l, true)) (sym others)) (omega arith) ready'
          | inr (last, done) ↦ absurd (omega arith)
        ]
        | inr (stop, gone) ↦ elim (first_chunk owner offset body s same h ready) [
          | inl (more', ready') ↦ absurd (omega arith)
          | inr (last, done) ↦
              ap (λ (r : Received). r.1) (deliver-foreign fresh k fs all here i (others ∙ gone))
              ∙ done
        ]
      ]

-- A sender that takes every frame is sent the whole payload.
send_chunks-succeeds :
    (fuel limit k : ℕ) (bytes : List ℕ) (offset : ℕ)
    → 0 < limit
    → length bytes < offset + fuel
    → offset ≤ length bytes
    → (send_chunks (λ o. true) fuel limit k bytes offset).1 ≡ true
unfolding send_chunks
send_chunks-succeeds zero limit k bytes offset pos enough h = absurd (omega arith)
send_chunks-succeeds (suc fuel) limit k bytes offset pos enough h =
    elim (Bool-cases (ltb (offset + min limit (length bytes - offset)) (length bytes))) [
      | inl more ↦ ground (
        arith,
        more,
        send_chunks-succeeds fuel limit k bytes (offset + min limit (length bytes - offset)) pos
            (ground (arith, more)) (ground (arith, more)),
      )
      | inr last ↦ ground (arith, last)
    ]

-- If no frame is refused and the chunk size is positive, the rounds given to the loop of send
-- are enough, and send answers with the reference of its stream.
send-succeeds :
    (bytes : List ℕ) (s : StreamStrategy)
    → 0 < s.chunk_bytes
    → (send (λ o. true) bytes s).reference ≡ some (little 8 s.next_stream)
unfolding send
send-succeeds bytes s pos = ground (
  arith,
  send_chunks-succeeds (length bytes + 1) s.chunk_bytes s.next_stream bytes 0 pos (omega arith)
      (omega arith),
)

-- If send answers with a reference for a payload of fewer than 2^64 bytes, and its frames
-- arrive in order between any frames that are no chunks of its stream, at a strategy that has
-- no part of the stream, then receive answers with the payload for that reference.
pub receive-send :
    (fresh : ℕ → ℕ) (accepts : ℕ → Bool) (bytes reference : List ℕ) (s t : StreamStrategy)
    (all : List (Bool × List ℕ))
    → length bytes < 2 ^ 64
    → s.next_stream < 2 ^ 64
    → (send accepts bytes s).reference ≡ some reference
    → Interleaving s.next_stream (send accepts bytes s).frames all
    → t.partials s.next_stream ≡ none
    → (receive reference (deliver fresh all t)).0 ≡ some bytes
unfolding send receive
receive-send fresh accepts bytes reference s t all small hk answered i new =
    let sent = send_chunks accepts (length bytes + 1) s.chunk_bytes s.next_stream bytes 0 in
    let ok : sent.1 ≡ true = ground (arith, answered) in
    let named : reference ≡ little 8 s.next_stream = ground (arith, answered) in
    let there =
      arrives fresh accepts s.next_stream s.chunk_bytes bytes hk small sent.0 all t
        (length bytes + 1) 0 i (ap (λ b. (sent.0, b)) ok) (omega arith) (nothing_yet refl new) in
    ground (arith, named, join-little 8 s.next_stream hk, length-little 8 s.next_stream, there)
