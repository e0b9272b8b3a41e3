-- ===== src/Samples/Chunked.antt =====
-- A payload of five bytes in chunks of two, for src/remote/stream_strategy.cpp.
use sub0pipeline.Prelude.{ℕ, ◌≡◌, refl, Bool, true, false, none, some, List, [], ◌∷◌, arith}
use sub0pipeline.Wire.{little}
use sub0pipeline.Chunked.{
  StreamStrategy, new_strategy, chunk_frame, send_chunks, send, receive, parse_chunk,
}
use sub0pipeline.Chunked.Delivery.{
  deliver, Interleaving, no_more, mine, other, Foreign, receive-send,
}

abbrev two_bytes : StreamStrategy
two_bytes = record { chunk_bytes = 2; next_stream = 1; partials = λ k. none; complete = λ k. none }

abbrev payload : List ℕ
payload = 10 ∷ 20 ∷ 30 ∷ 40 ∷ 50 ∷ []

abbrev arrivals : List (Bool × List ℕ)
arrivals =
    (true, chunk_frame 1 5 0 (10 ∷ 20 ∷ []))
    ∷ (true, 9 ∷ [])
    ∷ (false, chunk_frame 1 5 2 (30 ∷ 40 ∷ []))
    ∷ (true, chunk_frame 1 5 4 (50 ∷ []))
    ∷ []

no_chunk : Foreign 1 (9 ∷ [])
unfolding parse_chunk
no_chunk c e = absurd (ground (arith, e))

interleaved : Interleaving 1 (send (λ o. true) payload two_bytes).frames arrivals
unfolding send send_chunks
interleaved = mine true (chunk_frame 1 5 0 (10 ∷ 20 ∷ [])) (
    other true (9 ∷ []) no_chunk (
      mine false (chunk_frame 1 5 2 (30 ∷ 40 ∷ []))
        (mine true (chunk_frame 1 5 4 (50 ∷ [])) no_more)))

receive-send_example :
    (receive (little 8 1) (deliver (λ i. 0) arrivals (new_strategy 4))).0 ≡ some payload
unfolding send send_chunks new_strategy
receive-send_example =
    receive-send (λ i. 0) (λ o. true) payload (little 8 1) two_bytes (new_strategy 4) arrivals
      (omega arith) (omega arith) refl interleaved refl
