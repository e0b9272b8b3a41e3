-- ===== src/Stream.antt =====
-- FrameReader of include/sub0pipeline/remote/transport.hpp: the frames of a stream of bytes. The buffer
-- from `offset` on is `rest`, the part that the loop has not cut into frames yet.
pub mod Cuts
pub mod Scans
pub mod Chunks
pub mod Frames
use sub0pipeline.Prelude.{
  ℕ, zero, suc, ◌+◌, Bool, true, false, List, [], ◌∷◌, ◌++◌, ltb, if◌then◌else◌, length,
}
use sub0pipeline.Wire.{take, drop, join}

pub record FrameReader : Type 0 where
  pub max_body_bytes : ℕ
  pub buffer : List ℕ

abbrev pub header_bytes : ℕ
header_bytes = 5

-- What the loop finds at the front of the buffer.
pub data Front : Type 0 where
  incomplete too_long : Front
  frame : (frame_bytes : ℕ) → Front

-- One round of the loop of feed, up to the call of onFrame.
pub front : ℕ → List ℕ → Front
front max rest =
    if ltb (length rest) header_bytes
    then incomplete
    else if ltb max (join (take 4 rest))
    then too_long
    else if ltb (length rest) (header_bytes + join (take 4 rest))
    then incomplete
    else frame (header_bytes + join (take 4 rest))

-- The frames that the loop has passed to onFrame, the bytes that are left, and whether it went on to
-- its end.
pub record Scanned : Type 0 where
  pub frames : List (List ℕ)
  pub rest : List ℕ
  pub ok : Bool

abbrev pub cons_frame : List ℕ → Scanned → Scanned
cons_frame f s = record s { frames = f ∷ s.frames }

abbrev pub at_front : Front → (List ℕ → Scanned) → List ℕ → Scanned
at_front incomplete go rest = record { frames = []; rest = rest; ok = true }
at_front too_long go rest = record { frames = []; rest = rest; ok = false }
at_front (frame n) go rest = cons_frame (take n rest) (go (drop n rest))

-- The loop, on fuel. A round takes five bytes at least.
pub scan : ℕ → ℕ → List ℕ → Scanned
unfolding front
scan max zero rest = record { frames = []; rest = rest; ok = true }
scan max (suc fuel) rest = at_front (front max rest) (scan max fuel) rest

-- The answer of feed, the frames, and the reader after it.
pub record Fed : Type 0 where
  pub ok : Bool
  pub frames : List (List ℕ)
  pub reader : FrameReader

-- FrameReader::feed. The buffer keeps all bytes if a frame is too long.
unfoldable pub feed : List ℕ → FrameReader → Fed
unfolding scan
feed bytes r =
    let buffer = r.buffer ++ bytes in
    let s = scan r.max_body_bytes (length buffer) buffer in
    record {
      ok = s.ok;
      frames = s.frames;
      reader = record r { buffer = if s.ok then s.rest else buffer };
    }
