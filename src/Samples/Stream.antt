-- ===== src/Samples/Stream.antt =====
-- Two frames that arrive in three chunks.
use sub0pipeline.Prelude.{ℕ, ◌≡◌, refl, true, List, [], ◌∷◌, arith}
use sub0pipeline.Wire.{cancel, hello_reject, finish, little}
use sub0pipeline.Stream.{FrameReader, feed}
use sub0pipeline.Stream.Chunks.{concat, feed_all, Same, empty-Settled, feed_all-concat}
use sub0pipeline.Stream.Frames.{none_framed, one_framed, feed_all-Framed}

abbrev two_frames : List (List ℕ)
two_frames = finish cancel (1 ∷ 2 ∷ 3 ∷ []) ∷ finish hello_reject [] ∷ []

abbrev three_chunks : List (List ℕ)
three_chunks = (3 ∷ 0 ∷ []) ∷ (0 ∷ 0 ∷ 6 ∷ 1 ∷ 2 ∷ 3 ∷ 0 ∷ 0 ∷ []) ∷ (0 ∷ 0 ∷ 3 ∷ []) ∷ []

abbrev reader : FrameReader
reader = record { max_body_bytes = 3; buffer = [] }

feed_all-concat_example : Same (feed_all three_chunks reader) (feed (concat three_chunks) reader)
feed_all-concat_example = feed_all-concat three_chunks reader (empty-Settled 3)

feed_all-Framed_example :
    ((feed_all three_chunks reader).ok ≡ true)
    × ((feed_all three_chunks reader).frames ≡ two_frames)
    × ((feed_all three_chunks reader).reader ≡ reader)
unfolding finish little
feed_all-Framed_example =
    feed_all-Framed 3 two_frames three_chunks
      (one_framed cancel (1 ∷ 2 ∷ 3 ∷ []) (omega arith) (omega arith)
        (one_framed hello_reject [] (omega arith) (omega arith) none_framed))
      refl
